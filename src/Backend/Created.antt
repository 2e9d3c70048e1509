-- ===== src/Backend/Created.antt =====
-- Create and the resources that it acquires.
use garden_linux.Common.{
  ◌≡◌, ◌≢◌, ◌⊎◌, inl, inr, refl, sym, ap, ◌∙◌, Bool, true, false, not, List, [], ◌∷◌, Option, none,
  some, ltb, ok, err, arith, Option-cases, Text, text_eq, nat_eq, Outcome-cases,
}
use garden_linux.Common.Map
use garden_linux.Common.Map.{Map}
use garden_linux.Repository.{add}
use garden_linux.Repository.Latest.{adds, run, run-IsIndexed}
use garden_linux.Backend.{
  limit_if, then_do, create, admit, create_admitted, Services, Limits, Settings, ContainerSpec,
  Repo, start_provided, failed, apply_limits,
}
use garden_linux.Backend.Traced.{
  Event, acquired, released, acquisitions, releases, traced, keep, note, IsBalanced,
  length-insert_new,
}

module _ (s : Services) where
  abbrev World : Type 0
  World = s.World × List (Event s.LinuxSpec)

  limit_if-log :
      (test : Bool) (call : s.World → s.World × Option Text) (w : World)
      → (limit_if (traced s) test (keep call) w).0.1 ≡ w.1
  unfolding limit_if
  limit_if-log true call w = refl
  limit_if-log false call w = refl

  limit_then-log :
      (first : World × Option Text) (test : Bool) (call : s.World → s.World × Option Text)
      → (then_do (traced s) first (limit_if (traced s) test (keep call))).0.1 ≡ first.0.1
  unfolding then_do
  limit_then-log (w, none) test call = limit_if-log test call w
  limit_then-log (w, some e) test call = refl

  pub apply_limits-log :
      (c : s.Container) (l : Limits s.Disk s.Bandwidth) (w : World)
      → (apply_limits (traced s) c l w).0.1 ≡ w.1
  unfolding apply_limits
  apply_limits-log c l w =
      let t = traced s in
      let cpu = limit_if t (ltb 0 l.cpu) (t.limit_cpu l.cpu c) w in
      let disk = then_do t cpu (limit_if t (not (s.is_zero_disk l.disk)) (t.limit_disk l.disk c)) in
      let bandwidth =
        then_do t disk
          (limit_if t (not (s.is_zero_bandwidth l.bandwidth)) (t.limit_bandwidth l.bandwidth c)) in
      limit_then-log bandwidth (ltb 0 l.memory) (s.limit_memory l.memory c)
      ∙ limit_then-log disk (not (s.is_zero_bandwidth l.bandwidth))
          (s.limit_bandwidth l.bandwidth c)
      ∙ limit_then-log cpu (not (s.is_zero_disk l.disk)) (s.limit_disk l.disk c)
      ∙ limit_if-log (ltb 0 l.cpu) (s.limit_cpu l.cpu c) w

  -- A provided container is stored, or its resources are released.
  pub start_provided-log :
      (spec : ContainerSpec (traced s)) (linux : s.LinuxSpec) (c : s.Container)
      (repo : Repo (traced s)) (w : World)
      → let (repo', w', r) = start_provided (traced s) spec linux c repo w in
        ((r ≡ ok c) × (repo' ≡ add s.handle c repo) × (w'.1 ≡ w.1))
        ⊎ ((e : Text) × (r ≡ err (failed e)) × (repo' ≡ repo) × (w'.1 ≡ released linux ∷ w.1))
  unfolding start_provided
  start_provided-log spec linux c repo w =
      let (w₁, not_started) = (traced s).start_container c w in
      let (w₂, not_limited) = apply_limits (traced s) c spec.limits w₁ in
      elim (Option-cases not_started) [
        | inr (e, bad) ↦ rw (start_provided, bad) (inr (e, refl, refl, refl))
        | inl fine ↦ elim (Option-cases not_limited) [
          | inr (e, bad) ↦
              rw (start_provided, fine, bad)
                (inr (
                  e,
                  refl,
                  refl,
                  ap (λ log. released linux ∷ log) (apply_limits-log c spec.limits w₁),
                ))
          | inl good ↦
              rw (start_provided, fine, good) (inl (refl, refl, apply_limits-log c spec.limits w₁))
        ]
      ]

  -- A call that fails gives back what it acquired, if it acquired anything.
  abbrev pub Undone : World → World → Type 0
  Undone w w' = (w'.1 ≡ w.1) ⊎ ((l : s.LinuxSpec) × (w'.1 ≡ released l ∷ acquired l ∷ w.1))

  pub create_admitted-log :
      (spec : ContainerSpec (traced s)) (repo : Repo (traced s)) (w : World)
      → let (repo', w', r) = create_admitted (traced s) spec repo w in
        ((l : s.LinuxSpec) × (c : s.Container) × (v : s.World) × ((s.acquire spec.request w.0).1
            ≡ ok l)
          × ((s.provide l v).1 ≡ c)
          × (r ≡ ok c)
          × (repo' ≡ add s.handle c repo)
          × (w'.1 ≡ acquired l ∷ w.1))
        ⊎ (((c : s.Container) → r ≢ ok c) × (repo' ≡ repo) × Undone w w')
  unfolding create_admitted
  create_admitted-log spec repo w =
      let got = s.acquire spec.request w.0 in
      elim (Outcome-cases got.1) [
        | inr (inl (e, bad)) ↦
            rw (create_admitted, bad) (inr (λ c h. cc, refl, inl (ap (λ g. note g w.1) bad)))
        | inr (inr stuck) ↦
            rw (create_admitted, stuck) (inr (λ c h. cc, refl, inl (ap (λ g. note g w.1) stuck)))
        | inl (l, fine) ↦
            let (v, c) = s.provide l got.0 in
            let noted : note got.1 w.1 ≡ acquired l ∷ w.1 = ap (λ g. note g w.1) fine in
            elim (start_provided-log spec l c repo (v, note got.1 w.1)) [
              | inl (done, added, same) ↦
                  rw (create_admitted, fine)
                    (inl (l, c, got.0, refl, refl, done, added, same ∙ noted))
              | inr (e, bad, kept, gave) ↦
                  rw (create_admitted, fine)
                    (inr (
                      λ d h. cc (bad, h),
                      kept,
                      inr (l, gave ∙ ap (λ log. released l ∷ log) noted),
                    ))
            ]
      ]

  stored-IsBalanced :
      (l : s.LinuxSpec) (c : s.Container) (repo : Repo (traced s)) (w w' : World)
      → IsBalanced s repo w
      → Map.lookup (s.handle c) repo ≡ none
      → w'.1 ≡ acquired l ∷ w.1
      → IsBalanced s (add s.handle c repo) w'
  unfolding IsBalanced add run
  stored-IsBalanced l c repo w w' v free one_more = (
    run-IsIndexed s.handle (adds c ∷ []) repo v.0,
    ground (
      arith,
      ap acquisitions one_more,
      ap releases one_more,
      length-insert_new (s.handle c) c repo free,
      v.1,
    ),
  )

  Undone-IsBalanced :
      (repo : Repo (traced s)) (w w' : World)
      → IsBalanced s repo w
      → Undone w w'
      → IsBalanced s repo w'
  unfolding IsBalanced
  Undone-IsBalanced repo w w' v (inl same) =
      (v.0, ground (arith, ap acquisitions same, ap releases same, v.1))
  Undone-IsBalanced repo w w' v (inr (l, both)) =
      (v.0, ground (arith, ap acquisitions both, ap releases both, v.1))

  -- As many acquisitions from the pool have not been followed by a call of `Release` as there are
  -- stored containers: `Create` keeps this so, whether it succeeds or fails at any step and
  -- whatever `Release` returns, if the handle of a container that is provided is not in use; and a
  -- `Create` that fails stores nothing, and has either acquired nothing or called `Release` with
  -- just what it acquired.
  pub create-IsBalanced :
      (b : Settings) (spec : ContainerSpec (traced s)) (repo : Repo (traced s)) (w : World)
      → IsBalanced s repo w
      → ((l : s.LinuxSpec) (v : s.World)
          → (s.acquire spec.request w.0).1 ≡ ok l
          → Map.lookup (s.handle (s.provide l v).1) repo ≡ none)
      → let (repo', w', r) = create (traced s) b spec repo w in
        IsBalanced s repo' w' × (((c : s.Container) → r ≢ ok c) → (repo' ≡ repo) × Undone w w')
  unfolding create
  create-IsBalanced b spec repo w v free = elim (Outcome-cases (admit (traced s) b spec repo)) [
    | inr (inl (e, refused)) ↦ rw (create, refused) (v, λ h. (refl, inl refl))
    | inr (inr stuck) ↦ rw (create, stuck) (v, λ h. (refl, inl refl))
    | inl (_, admitted) ↦ elim (create_admitted-log spec repo w) [
      | inr (bad, kept, undone) ↦
          rw (create, admitted) (rw kept (Undone-IsBalanced repo w _ v undone), λ h. (kept, undone))
      | inl (l, c, u, got, made, done, added, one_more) ↦
          rw (create, admitted)
            (
              rw added (
                  stored-IsBalanced l c repo w _ v
                    (ap (λ d. Map.lookup (s.handle d) repo) (sym made) ∙ free l u got) one_more),
              λ h. absurd (h c done),
            )
    ]
  ]
