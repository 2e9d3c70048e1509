-- ===== src/Firewall/Undoing.antt =====
-- `ContainerSetup` of linux_container/iptables_manager sets up all chains of a container or takes back
-- those that it had set up.
use garden_linux.Common.{
  append_assoc, ◌⊎◌, All-map, ℕ, ◌≡◌, ◌≢◌, inl, inr, refl, sym, ap, ◌∙◌, Bool, false, List, [], ◌∷◌,
  ◌++◌, map, Option, none, some, All, Option-cases, Text, text_eq, nat_eq, true,
}
use garden_linux.Subnets.Address.{IpNet}
use garden_linux.Firewall.Instances.{
  InstanceChain, InstanceError, teardown_from, setup_from, container_setup, container_teardown,
}

none-ne-some {ℓ} : {A : Type ℓ} {a : A} → ◌≢◌ {A = Option A} none (some a)
none-ne-some h = cc

map-snoc {ℓ κ} :
    {A : Type ℓ} {B : Type κ} (f : A → B) (xs : List A) (x : A)
    → map f (xs ++ x ∷ []) ≡ map f xs ++ f x ∷ []
map-snoc f [] x = refl
map-snoc f (y ∷ xs) x = ap (λ ys. f y ∷ ys) (map-snoc f xs x)

-- No name twice.
abbrev pub AllApart : {N : Type 0} → List N → Type 0
AllApart [] = Unit {0}
AllApart (n ∷ ns) = All (λ m. m ≢ n) ns × AllApart ns

module _ {S N : Type 0} (chain : N → InstanceChain S) (present : N → S → Bool) (id bridge : Text)
    (ip : ℕ) (network : IpNet) where
  module _
      (removes : (n : N) (s : S)
        → ((chain n).teardown id s).1 ≡ none
        → present n ((chain n).teardown id s).0 ≡ false)
      (stays_away : (n m : N) (s : S)
        → present n s ≡ false
        → present n ((chain m).teardown id s).0 ≡ false) where
    teardown_from-away :
        (last : Option InstanceError) (ns : List N) (n : N) (s : S)
        → present n s ≡ false
        → present n (teardown_from last (map chain ns) id s).0 ≡ false
    unfolding teardown_from
    teardown_from-away last [] n s away = away
    teardown_from-away last (m ∷ ns) n s away = elim (Option-cases ((chain m).teardown id s).1) [
      | inl fine ↦
          rw fine (teardown_from-away last ns n ((chain m).teardown id s).0 (stays_away n m s away))
      | inr (e, error) ↦
          rw error
            (teardown_from-away (some e) ns n ((chain m).teardown id s).0 (stays_away n m s away))
    ]

    -- An error is never forgotten.
    teardown_from-error :
        (e : InstanceError) (ns : List N) (s : S)
        → (teardown_from (some e) (map chain ns) id s).1 ≢ none
    unfolding teardown_from
    teardown_from-error e [] s h = none-ne-some (sym h)
    teardown_from-error e (n ∷ ns) s h = elim (Option-cases ((chain n).teardown id s).1) [
      | inl fine ↦ teardown_from-error e ns ((chain n).teardown id s).0 (rw fine at h)
      | inr (x, error) ↦ teardown_from-error x ns ((chain n).teardown id s).0 (rw error at h)
    ]

    teardown_from-absent :
        (ns : List N) (s t : S)
        → (teardown_from none (map chain ns) id s).1 ≡ none
        → (teardown_from none (map chain ns) id s).0 ≡ t
        → All (λ n. present n t ≡ false) ns
    unfolding teardown_from
    teardown_from-absent [] s t clean h = record {}
    teardown_from-absent (n ∷ ns) s t clean h =
        let u = ((chain n).teardown id s).0 in
        elim (Option-cases ((chain n).teardown id s).1) [
          | inl fine ↦
              let rest : (teardown_from none (map chain ns) id u).0 ≡ t = rw fine at h in
              (
                rw⁻¹ rest (teardown_from-away none ns n u (removes n s fine)),
                teardown_from-absent ns u t (rw fine at clean) rest,
              )
          | inr (e, error) ↦ absurd (teardown_from-error e ns u (rw error at clean))
        ]

    module _
        (apart : (n m : N) (s : S)
          → n ≢ m
          → present n ((chain m).setup id bridge ip network s).0 ≡ present n s) where
      -- `failing` could not be set up, and the chains before it were torn down: `t` has none of
      -- the later chains, and none of the earlier ones if the tear-down had no error.
      abbrev pub Undone : List N → S → InstanceError → Type 0
      Undone ns t e =
          (earlier : List N) × (failing : N) × (later : List N) × (u : S) × (v : S) × (ns
            ≡ earlier ++ failing ∷ later)
          × ((chain failing).setup id bridge ip network u ≡ (v, some e))
          × (t ≡ (teardown_from none (map chain earlier) id v).0)
          × All (λ n. present n t ≡ false) later
          × ((teardown_from none (map chain earlier) id v).1 ≡ none
              → All (λ n. present n t ≡ false) earlier)

      away_after :
          (n : N) (ns : List N) (s : S)
          → All (λ m. m ≢ n) ns
          → All (λ m. present m s ≡ false) ns
          → All (λ m. present m ((chain n).setup id bridge ip network s).0 ≡ false) ns
      away_after n [] s others away = record {}
      away_after n (m ∷ ns) s others away =
          (apart m n s others.0 ∙ away.0, away_after n ns s others.1 away.1)

      setup_from-next :
          (before ns : List N) (n : N) (s : S)
          → ((chain n).setup id bridge ip network s).1 ≡ none
          → setup_from (map chain before) (map chain (n ∷ ns)) id bridge ip network s
            ≡ setup_from
                (map chain (before ++ n ∷ []))
                (map chain ns)
                id
                bridge
                ip
                network
                ((chain n).setup id bridge ip network s).0
      unfolding setup_from
      setup_from-next before ns n s fine = rw (fine, map-snoc chain before n) refl

      setup_from-error :
          (before ns : List N) (n : N) (s : S) (x : InstanceError)
          → ((chain n).setup id bridge ip network s).1 ≡ some x
          → setup_from (map chain before) (map chain (n ∷ ns)) id bridge ip network s ≡ (
            (teardown_from none (map chain before) id ((chain n).setup id bridge ip network s).0).0,
            some x,
          )
      unfolding setup_from teardown_from
      setup_from-error before ns n s x error = rw error refl

      setup_from-Undone :
          (all before ns : List N) (s t : S) (e : InstanceError)
          → all ≡ before ++ ns
          → AllApart ns
          → All (λ n. present n s ≡ false) ns
          → setup_from (map chain before) (map chain ns) id bridge ip network s ≡ (t, some e)
          → Undone all t e
      unfolding setup_from
      setup_from-Undone all before [] s t e parts distinct away h =
          absurd (none-ne-some (ap (λ x. x.1) h))
      setup_from-Undone all before (n ∷ ns) s t e parts distinct away h =
          elim (Option-cases ((chain n).setup id bridge ip network s).1) [
            | inl fine ↦
                setup_from-Undone all (before ++ n ∷ []) ns
                  ((chain n).setup id bridge ip network s).0 t e
                  (parts ∙ sym (append_assoc before (n ∷ []) ns)) distinct.1
                  (away_after n ns s distinct.0 away.1)
                  (sym (setup_from-next before ns n s fine) ∙ h)
            | inr (x, error) ↦
                let u = ((chain n).setup id bridge ip network s).0 in
                let left : (teardown_from none (map chain before) id u).0 ≡ t =
                  ap (λ y. y.0) (sym (setup_from-error before ns n s x error) ∙ h) in
                let same : some x ≡ some e =
                  ap (λ y. y.1) (sym (setup_from-error before ns n s x error) ∙ h) in
                (
                  before,
                  n,
                  ns,
                  s,
                  u,
                  parts,
                  ap (λ y. (u, y)) (error ∙ same),
                  sym left,
                  All-map ns (away_after n ns s distinct.0 away.1)
                      (λ m away_now. rw⁻¹ left (teardown_from-away none before m u away_now)),
                  λ clean. teardown_from-absent before u t clean left,
                )
          ]

      module _
          (adds : (n : N) (s : S)
            → ((chain n).setup id bridge ip network s).1 ≡ none
            → present n ((chain n).setup id bridge ip network s).0 ≡ true) where
        -- A chain that is up stays up while others are set up.
        setup_from-kept :
            (before ns : List N) (m : N) (s t : S)
            → All (λ n. n ≢ m) ns
            → present m s ≡ true
            → setup_from (map chain before) (map chain ns) id bridge ip network s ≡ (t, none)
            → present m t ≡ true
        unfolding setup_from
        setup_from-kept before [] m s t others up h = ap (present m) (sym (ap (λ x. x.0) h)) ∙ up
        setup_from-kept before (n ∷ ns) m s t others up h =
            let u = ((chain n).setup id bridge ip network s).0 in
            elim (Option-cases ((chain n).setup id bridge ip network s).1) [
              | inl fine ↦
                  setup_from-kept (before ++ n ∷ []) ns m u t others.1
                    (apart m n s (λ same. others.0 (sym same)) ∙ up)
                    (sym (setup_from-next before ns n s fine) ∙ h)
              | inr (x, error) ↦
                  absurd
                    (none-ne-some (ap (λ y. y.1) (sym h ∙ setup_from-error before ns n s x error)))
            ]

        setup_from-done :
            (before ns : List N) (s t : S)
            → AllApart ns
            → setup_from (map chain before) (map chain ns) id bridge ip network s ≡ (t, none)
            → All (λ n. present n t ≡ true) ns
        setup_from-done before [] s t distinct h = record {}
        setup_from-done before (n ∷ ns) s t distinct h =
            let u = ((chain n).setup id bridge ip network s).0 in
            elim (Option-cases ((chain n).setup id bridge ip network s).1) [
              | inl fine ↦
                  let rest = sym (setup_from-next before ns n s fine) ∙ h in
                  (
                    setup_from-kept (before ++ n ∷ []) ns n u t distinct.0 (adds n s fine) rest,
                    setup_from-done (before ++ n ∷ []) ns u t distinct.1 rest,
                  )
              | inr (x, error) ↦
                  absurd
                    (none-ne-some (ap (λ y. y.1) (sym h ∙ setup_from-error before ns n s x error)))
            ]

        container_setup-clean :
            (ns : List N) (s : S)
            → (teardown_from none (map chain ns) id s).1 ≡ none
            → container_setup (map chain ns) id bridge ip network s
              ≡ setup_from []
                  (map chain ns)
                  id
                  bridge
                  ip
                  network
                  (teardown_from none (map chain ns) id s).0
        unfolding container_setup container_teardown
        container_setup-clean ns s fine = rw (container_setup, fine) refl

        container_setup-stuck :
            (ns : List N) (s : S) (x : InstanceError)
            → (teardown_from none (map chain ns) id s).1 ≡ some x
            → container_setup (map chain ns) id bridge ip network s
              ≡ ((teardown_from none (map chain ns) id s).0, some x)
        unfolding container_setup container_teardown
        container_setup-stuck ns s x error = rw (container_setup, error) refl

        -- Suppose that tearing a chain down without an error removes it, that no tear-down brings
        -- a chain back, and that setting one up adds it if it succeeds and leaves the other chains
        -- as they are. Then, for chains that are all different, `ContainerSetup` that succeeds
        -- leaves every chain set up. One that fails either failed in the tear-down at its start,
        -- which is then all that it did, or because one chain could not be set up: then the
        -- earlier chains were torn down, the later ones are absent, and so are the earlier ones if
        -- that tear-down had no error.
        pub container_setup-whole :
            (ns : List N) (s t : S)
            → AllApart ns
            → (container_setup (map chain ns) id bridge ip network s ≡ (t, none)
                → All (λ n. present n t ≡ true) ns)
              × ((e : InstanceError)
                  → container_setup (map chain ns) id bridge ip network s ≡ (t, some e)
                  → (container_teardown (map chain ns) id s ≡ (t, some e)) ⊎ Undone ns t e)
        unfolding container_teardown
        container_setup-whole ns s t distinct =
            let u = (teardown_from none (map chain ns) id s).0 in
            elim (Option-cases (teardown_from none (map chain ns) id s).1) [
              | inl fine ↦ (
                λ h. setup_from-done [] ns u t distinct (sym (container_setup-clean ns s fine) ∙ h),
                λ e h. inr (
                    setup_from-Undone ns [] ns u t e refl distinct
                      (teardown_from-absent ns s u fine refl)
                      (sym (container_setup-clean ns s fine) ∙ h)),
              )
              | inr (x, error) ↦ (
                λ h.
                    absurd
                      (none-ne-some (ap (λ y. y.1) (sym h ∙ container_setup-stuck ns s x error))),
                λ e h. inl (ap (λ y. (u, y)) error ∙ sym (container_setup-stuck ns s x error) ∙ h),
              )
            ]
