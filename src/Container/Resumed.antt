-- ===== src/Container/Resumed.antt =====
-- A container that is saved when the daemon stops, and restored when it starts.
use garden_linux.PortPool.{PortPool}
use garden_linux.ResourcePool.Snapshots.{restored_spec}
use garden_linux.Container.{
  Host, Spec, LinuxContainer, set_grace_time, new_linux_container, set_state, ◌++◌, ◌≡◌, ℕ, All,
  some, ok, ◌∙◌, ap, sym, Option-cases, Text, inl, [], inr, >>=-eq-ok, Outcome-cases,
}
use garden_linux.Container.Limiting.{limit_memory}
use garden_linux.Container.Snapshots.{
  Snapshot, snapshot, process_snapshots, restore_container, register_events, restore_limited,
}
use garden_linux.Container.Snapshots.{restore_rest}
use garden_linux.Container.Restored.{
  IsMapped, restore_rest-ok, register_events_lem, with_events, limit_memory-ok,
}

module _ {h : Host} where
  -- What `Restore` has set before the limit on memory.
  resumed : Spec h → LinuxContainer h
  resumed s = record (new_linux_container {h = h} s) {
    spec = record s { events = s.events ++ s.events };
  }

  resumed_lem :
      (s : Spec h)
      → register_events s.events (record (set_state s.state (new_linux_container {h = h} s)) {
        spec = record (set_state s.state (new_linux_container {h = h} s)).spec { env = s.env };
      })
        ≡ resumed s
  unfolding resumed with_events set_state new_linux_container
  resumed_lem s = register_events_lem s.events (new_linux_container s)

  limited-resumed :
      (s : Spec h) (n : ℕ) (k : h.Kernel)
      → s.limits.memory ≡ some n
      → (limit_memory n (resumed s) k).2 ≡ ok tt
      → (limit_memory n (resumed s) k).0 ≡ resumed s
  unfolding resumed
  limited-resumed s n k set done =
      limit_memory-ok n (resumed s) k done
      ∙ ap
          (λ m. record (resumed s) {
            spec = record (resumed s).spec { limits = record s.limits { memory = m } };
          })
          (sym set)

  -- A `Restore` that succeeds goes on to the processes with the same container.
  restore_limited-resumes :
      (s : Spec h) (p : PortPool) (k : h.Kernel)
      → (restore_limited s (resumed s) p k).1.2 ≡ ok tt
      → (k' : h.Kernel) × (restore_limited s (resumed s) p k ≡ restore_rest s (resumed s) p k')
  unfolding restore_limited
  restore_limited-resumes s p k e = elim (Option-cases s.limits.memory) [
    | inl unlimited ↦ (k, simp (restore_limited, unlimited))
    | inr (n, limit) ↦ elim (Outcome-cases (limit_memory n (resumed s) k).2) [
      | inr (inl (x, bad)) ↦ absurd (cc (rw (restore_limited, limit, bad) at e))
      | inr (inr stuck) ↦ absurd (cc (rw (restore_limited, limit, stuck) at e))
      | inl (_, done) ↦ (
        (limit_memory n (resumed s) k).1,
        simp (restore_limited, limit)
            (rw (done) (
              ap (λ d. restore_rest s d p (limit_memory n (resumed s) k).1)
                (limited-resumed s n k limit done))),
      )
    ]
  ]

module _ (h : Host) where
  restore_limited-resumed :
      (s : Spec h) (p : PortPool) (k : h.Kernel)
      → All IsMapped s.net_ins
      → (restore_limited {h = h} s (resumed {h = h} s) p k).1.2 ≡ ok tt
      → ((restore_limited {h = h} s (resumed {h = h} s) p k).0 ≡ p)
        × ((restore_limited {h = h} s (resumed {h = h} s) p k).1.0.spec ≡ record s {
          events = s.events ++ s.events;
          net_ins = s.net_ins ++ s.net_ins;
          net_outs = s.net_outs ++ s.net_outs;
        })
        × ((restore_limited {h = h} s (resumed {h = h} s) p k).1.0.grace_time ≡ s.grace_time)
  unfolding resumed new_linux_container
  restore_limited-resumed s p k m e =
      let (k', step) = restore_limited-resumes {h = h} s p k e in
      rw step (restore_rest-ok {h = h} s (resumed {h = h} s) p k' m (rw step at e))

  -- A `Restore` that succeeds leaves the pool of ports and the specification as they were, but the
  -- events, the mappings and the rules are there twice.
  pub restore_container-ok :
      (s : Spec h) (p : PortPool) (k : h.Kernel)
      → All IsMapped s.net_ins
      → (restore_container {h = h} s (new_linux_container {h = h} s) p k).1.2 ≡ ok tt
      → let (p', d) = restore_container {h = h} s (new_linux_container {h = h} s) p k in
        (p' ≡ p)
        × (d.0.spec ≡ record s {
          events = s.events ++ s.events;
          net_ins = s.net_ins ++ s.net_ins;
          net_outs = s.net_outs ++ s.net_outs;
        })
        × (d.0.grace_time ≡ s.grace_time)
  unfolding restore_container
  restore_container-ok s p k m e =
      rw (resumed_lem {h = h} s) (restore_limited-resumed s p k m (rw (resumed_lem {h = h} s) at e))

  -- A container whose grace time was set to any `t`, that is saved, and that `Restore` takes back
  -- without an error, has the id, the handle, the state, the properties, the limits, the ports,
  -- the bridge and the network of before, and no port is taken from the pool; but its events and
  -- its mappings are there twice, its environment is empty, and its grace time is that of its
  -- specification, not `t`; under the condition that its mappings name no port 0.
  pub restore_container-snapshot :
      (c : LinuxContainer h) (t : ℕ) (k k' : h.Kernel) (p : PortPool) (depot : Text)
      (external_ip : ℕ) (version : h.Version) (saved : Snapshot h) (s : Spec h)
      → snapshot (set_grace_time t c) k ≡ ok saved
      → s ≡ restored_spec depot external_ip saved version
      → All IsMapped c.spec.net_ins
      → (restore_container {h = h} s (new_linux_container {h = h} s) p k').1.2 ≡ ok tt
      → let (p', r) = restore_container {h = h} s (new_linux_container {h = h} s) p k' in
        (p' ≡ p)
        × (r.0.spec.id ≡ c.spec.id)
        × (r.0.spec.handle ≡ c.spec.handle)
        × (r.0.spec.state ≡ c.spec.state)
        × (r.0.spec.properties ≡ c.spec.properties)
        × (r.0.spec.limits ≡ c.spec.limits)
        × (r.0.spec.resources.ports ≡ c.spec.resources.ports)
        × (r.0.spec.resources.bridge ≡ c.spec.resources.bridge)
        × (r.0.spec.resources.network ≡ c.spec.resources.network)
        × (r.0.spec.events ≡ c.spec.events ++ c.spec.events)
        × (r.0.spec.net_ins ≡ c.spec.net_ins ++ c.spec.net_ins)
        × (r.0.spec.net_outs ≡ c.spec.net_outs ++ c.spec.net_outs)
        × (r.0.spec.env ≡ [])
        × (r.0.grace_time ≡ c.spec.grace_time)
  unfolding snapshot set_grace_time restored_spec
  restore_container-snapshot c t k k' p depot external_ip version saved s e spec m done =
      let (processes, _, taken) = >>=-eq-ok (process_snapshots (h.active_processes k)) _ e in
      let mappings : s.net_ins ≡ c.spec.net_ins = cc (taken, spec) in
      let (ports, restored, grace) = restore_container-ok s p k' (rw mappings m) done in
      (ports, cc, cc, cc, cc, cc, cc, cc, cc, cc, cc, cc, cc, cc)
