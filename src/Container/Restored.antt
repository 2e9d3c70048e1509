-- ===== src/Container/Restored.antt =====
-- What is left of a container that is saved, restored and run on.
use garden_linux.Common.{
  ℕ, ◌<◌, ◌≡◌, inl, inr, refl, sym, ap, ◌∙◌, List, [], ◌∷◌, ◌++◌, append-nil, append_assoc, some,
  All, ok, arith, Option-cases, Text, text_eq, nat_eq, Outcome-cases,
}
use garden_linux.PortPool.{PortPool}
use garden_linux.ResourcePool.Snapshots.{NetInSpec}
use garden_linux.Container.{
  ActiveProcess, Signaller, Host, Spec, LinuxContainer, register_event, add_net_in,
}
use garden_linux.Container.Mappings.{net_in, map_port, net_out}
use garden_linux.Container.Limiting.{limit_memory}
use garden_linux.Container.Processes.{process_signaller}
use garden_linux.Container.Snapshots.{
  restore_net_ins, restore_net_outs, restore_processes, register_events,
}
use garden_linux.Container.Snapshots.{restore_rest}

-- Mappings as NetIn records them: neither port is 0.
abbrev pub IsMapped : NetInSpec → Type 0
IsMapped i = (0 < i.host_port) × (0 < i.container_port)

module _ {h : Host} where
  net_in-given :
      (i : NetInSpec) (c : LinuxContainer h) (p : PortPool) (k : h.Kernel)
      → IsMapped i
      → net_in i.host_port i.container_port c p k ≡ (p, map_port i.host_port i.container_port c k)
  unfolding net_in
  net_in-given i c p k m = ground arith

  map_port-ok :
      (i : NetInSpec) (c : LinuxContainer h) (k : h.Kernel) (r : ℕ × ℕ)
      → IsMapped i
      → (map_port i.host_port i.container_port c k).2 ≡ ok r
      → (map_port i.host_port i.container_port c k).0 ≡ add_net_in i.host_port i.container_port c
  unfolding map_port
  map_port-ok i c k r m e = ground arith

  with_net_ins : List NetInSpec → LinuxContainer h → LinuxContainer h
  with_net_ins is c = record c { spec = record c.spec { net_ins = c.spec.net_ins ++ is } }

  with_net_ins-add :
      (i : NetInSpec) (is : List NetInSpec) (c : LinuxContainer h)
      → with_net_ins is (add_net_in i.host_port i.container_port c) ≡ with_net_ins (i ∷ is) c
  unfolding add_net_in with_net_ins
  with_net_ins-add i is c =
      ap (λ l. record c { spec = record c.spec { net_ins = l } })
        (append_assoc c.spec.net_ins (i ∷ []) is)

  restore_net_ins-ok :
      (is : List NetInSpec) (c : LinuxContainer h) (p : PortPool) (k : h.Kernel)
      → All IsMapped is
      → (restore_net_ins is c p k).1.2 ≡ ok tt
      → ((restore_net_ins is c p k).0 ≡ p) × ((restore_net_ins is c p k).1.0 ≡ with_net_ins is c)
  unfolding restore_net_ins with_net_ins
  restore_net_ins-ok [] c p k m e = (
    refl,
    sym (ap (λ l. record c { spec = record c.spec { net_ins = l } }) (append-nil c.spec.net_ins)),
  )
  restore_net_ins-ok (i ∷ is) c p k m e =
      let given = net_in-given i c p k m.0 in
      let next = (map_port i.host_port i.container_port c k) in
      elim (Outcome-cases next.2) [
        | inr (inl (x, bad)) ↦ absurd (cc (rw (restore_net_ins, given, bad) at e))
        | inr (inr stuck) ↦ absurd (cc (rw (restore_net_ins, given, stuck) at e))
        | inl (r, done) ↦
            let added = map_port-ok i c k r m.0 done in
            let rest =
              restore_net_ins-ok is next.0 p next.1 m.1
                (rw (restore_net_ins, given, done, given) at e) in
            rw (restore_net_ins, given, done, given)
              (rest.0, rest.1 ∙ ap (with_net_ins is) added ∙ with_net_ins-add i is c)
      ]

  with_net_outs : List h.NetOut → LinuxContainer h → LinuxContainer h
  with_net_outs rs c = record c { spec = record c.spec { net_outs = c.spec.net_outs ++ rs } }

  net_out-ok :
      (r : h.NetOut) (c : LinuxContainer h) (k : h.Kernel)
      → (net_out r c k).2 ≡ ok tt
      → (net_out r c k).0 ≡ with_net_outs (r ∷ []) c
  unfolding net_out with_net_outs
  net_out-ok r c k e = ground arith

  restore_net_outs-ok :
      (rs : List h.NetOut) (c : LinuxContainer h) (k : h.Kernel)
      → (restore_net_outs rs c k).2 ≡ ok tt
      → (restore_net_outs rs c k).0 ≡ with_net_outs rs c
  unfolding restore_net_outs with_net_outs
  restore_net_outs-ok [] c k e =
      sym
        (ap (λ l. record c { spec = record c.spec { net_outs = l } }) (append-nil c.spec.net_outs))
  restore_net_outs-ok (r ∷ rs) c k e = elim (Outcome-cases (net_out r c k).2) [
    | inr (inl (x, bad)) ↦ absurd (cc (rw (restore_net_outs, bad) at e))
    | inr (inr stuck) ↦ absurd (cc (rw (restore_net_outs, stuck) at e))
    | inl (_, done) ↦
        let rest =
          restore_net_outs-ok rs (net_out r c k).0 (net_out r c k).1
            (rw (restore_net_outs, done) at e) in
        rw (restore_net_outs, done)
          (rest
            ∙ ap (with_net_outs rs) (net_out-ok r c k done)
            ∙ ap (λ l. record c { spec = record c.spec { net_outs = l } })
                (append_assoc c.spec.net_outs (r ∷ []) rs))
  ]

  unfoldable pub with_events : List Text → LinuxContainer h → LinuxContainer h
  with_events es c = record c { spec = record c.spec { events = c.spec.events ++ es } }

  pub register_events_lem :
      (es : List Text) (c : LinuxContainer h) → register_events es c ≡ with_events es c
  unfolding register_events register_event with_events
  register_events_lem [] c =
      sym (ap (λ l. record c { spec = record c.spec { events = l } }) (append-nil c.spec.events))
  register_events_lem (e ∷ es) c =
      register_events_lem es (register_event e c)
      ∙ ap (λ l. record c { spec = record c.spec { events = l } })
          (append_assoc c.spec.events (e ∷ []) es)

  restore_processes-spec :
      (g : Signaller) (ps : List ActiveProcess) (c : LinuxContainer h) (k : h.Kernel)
      → ((restore_processes g ps c k).0.spec ≡ c.spec)
        × ((restore_processes g ps c k).0.grace_time ≡ c.grace_time)
  unfolding restore_processes
  restore_processes-spec g [] c k = (refl, refl)
  restore_processes-spec g (p ∷ ps) c k = restore_processes-spec g ps _ _

  pub limit_memory-ok :
      (n : ℕ) (c : LinuxContainer h) (k : h.Kernel)
      → (limit_memory n c k).2 ≡ ok tt
      → (limit_memory n c k).0
        ≡ record c { spec = record c.spec { limits = record c.spec.limits { memory = some n } } }
  unfolding limit_memory
  limit_memory-ok n c k e = ground arith

  -- The container and the ports that a successful end of `Restore` leaves.
  pub restore_rest-ok :
      (s : Spec h) (c : LinuxContainer h) (p : PortPool) (k : h.Kernel)
      → All IsMapped s.net_ins
      → (restore_rest s c p k).1.2 ≡ ok tt
      → ((restore_rest s c p k).0 ≡ p)
        × ((restore_rest s c p k).1.0.spec ≡ record c.spec {
          net_ins = c.spec.net_ins ++ s.net_ins;
          net_outs = c.spec.net_outs ++ s.net_outs;
        })
        × ((restore_rest s c p k).1.0.grace_time ≡ c.grace_time)
  unfolding with_net_ins with_net_outs restore_rest
  restore_rest-ok s c p k m e = elim (Option-cases s.resources.network) [
    | inl missing ↦ absurd (cc (rw (restore_rest, missing) at e))
    | inr (n, some_network) ↦
        let (c₁, k₁) = restore_processes (process_signaller c) s.processes c k in
        let (same, grace) = restore_processes-spec (process_signaller c) s.processes c k in
        let set_up = h.container_setup s.id s.resources.bridge n.ip n.subnet k₁ in
        elim (Option-cases set_up.1) [
          | inr (x, bad) ↦ absurd (cc (rw (restore_rest, some_network, bad) at e))
          | inl fine ↦ elim (Outcome-cases (restore_net_ins s.net_ins c₁ p set_up.0).1.2) [
            | inr (inl (x, bad)) ↦ absurd (cc (rw (restore_rest, some_network, fine, bad) at e))
            | inr (inr stuck) ↦ absurd (cc (rw (restore_rest, some_network, fine, stuck) at e))
            | inl (_, mapped) ↦
                let (ports, ins) = restore_net_ins-ok s.net_ins c₁ p set_up.0 m mapped in
                let outs =
                  restore_net_outs-ok s.net_outs (restore_net_ins s.net_ins c₁ p set_up.0).1.0
                    (restore_net_ins s.net_ins c₁ p set_up.0).1.1
                    (rw (restore_rest, some_network, fine, mapped) at e) in
                rw (restore_rest, some_network, fine, mapped)
                  (
                    ports,
                    ap (λ (d : LinuxContainer h). d.spec) (outs ∙ ap (with_net_outs s.net_outs) ins)
                        ∙ ap
                            (λ (t : Spec h). record t {
                              net_ins = t.net_ins ++ s.net_ins;
                              net_outs = t.net_outs ++ s.net_outs;
                            })
                            same,
                    ap (λ (d : LinuxContainer h). d.grace_time)
                          (outs ∙ ap (with_net_outs s.net_outs) ins)
                        ∙ grace,
                  )
          ]
        ]
  ]
