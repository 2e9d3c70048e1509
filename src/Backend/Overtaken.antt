-- ===== src/Backend/Overtaken.antt =====
-- Calls of Create that overlap: the tests of one run before the other stores its container.
use garden_linux.Common.{
  ◌+◌, ◌≡◌, inl, inr, sym, ap, ◌∙◌, List, [], ◌∷◌, none, some, length, Outcome, ok, err, panic,
  arith, text_beq_iff, text_eq, nat_eq, Outcome-cases,
}
use garden_linux.Common.Map
use garden_linux.Common.Map.{Map}
use garden_linux.Repository.{add, find_by_handle}
use garden_linux.Backend.{
  Services, Settings, ContainerSpec, Repo, BackendError, create, admit, create_admitted,
}
use garden_linux.Backend.Traced.{
  Event, acquired, acquisitions, releases, traced, IsBalanced, length-insert_new, length-insert_old,
}
use garden_linux.Backend.Created.{create_admitted-log}

-- A call of `Create`: it has not begun, it has passed the tests, or it has returned.
pub data Call (s : Services) : Type 0 where
  waiting admitted : ContainerSpec s → Call s
  ended : Outcome BackendError s.Container → Call s

-- The state of two calls, and what they share.
pub record Both (s : Services) : Type 0 where
  pub first : Call s
  pub second : Call s
  pub repo : Repo s
  pub world : s.World

pub data Turn : Type 0 where
  one two : Turn

module _ (s : Services) where
  unfoldable pub advance : Settings → Call s → Repo s → s.World → Call s × Repo s × s.World
  advance b (waiting spec) repo w = elim (admit s b spec repo) [
    | ok _ ↦ (admitted spec, repo, w)
    | err e ↦ (ended (err e), repo, w)
    | panic ↦ (ended panic, repo, w)
  ]
  advance b (admitted spec) repo w =
      let (repo', w', r) = create_admitted s spec repo w in (ended r, repo', w')
  advance b (ended r) repo w = (ended r, repo, w)

  unfoldable pub take_turn : Settings → Turn → Both s → Both s
  unfolding advance
  take_turn b one t =
      let (call, repo, w) = advance b t.first t.repo t.world in
      record t { first = call; repo = repo; world = w }
  take_turn b two t =
      let (call, repo, w) = advance b t.second t.repo t.world in
      record t { second = call; repo = repo; world = w }

  unfoldable pub take_turns : Settings → List Turn → Both s → Both s
  unfolding take_turn
  take_turns b [] t = t
  take_turns b (turn ∷ turns) t = take_turns b turns (take_turn b turn t)

  -- A call that is not interrupted is `create`.
  pub take_turns-create :
      (b : Settings) (spec : ContainerSpec s) (other : Call s) (repo : Repo s) (w : s.World)
      → let (repo', w', r) = create s b spec repo w in
        take_turns b
          (one ∷ one ∷ [])
          (record { first = waiting spec; second = other; repo = repo; world = w })
        ≡ record { first = ended r; second = other; repo = repo'; world = w' }
  unfolding take_turns take_turn advance create
  take_turns-create b spec other repo w = elim (Outcome-cases (admit s b spec repo)) [
    | inl (_, fine) ↦ ground (arith, fine)
    | inr (inl (e, bad)) ↦ ground (arith, bad)
    | inr (inr stuck) ↦ ground (arith, stuck)
  ]

-- Both calls pass the tests, and then go on.
unfoldable pub overlapped :
    (s : Services) → Settings → ContainerSpec s → ContainerSpec s → Repo s → s.World → Both s
unfolding take_turns
overlapped s b x y repo w =
    take_turns s b (one ∷ two ∷ one ∷ two ∷ [])
      (record { first = waiting x; second = waiting y; repo = repo; world = w })

overlapped_lem :
    (s : Services) (b : Settings) (x y : ContainerSpec s) (repo : Repo s) (w : s.World)
    → admit s b x repo ≡ ok tt
    → admit s b y repo ≡ ok tt
    → let (repo₁, w₁, r₁) = create_admitted s x repo w in
      let (repo₂, w₂, r₂) = create_admitted s y repo₁ w₁ in
      overlapped s b x y repo w
      ≡ record { first = ended r₁; second = ended r₂; repo = repo₂; world = w₂ }
unfolding overlapped take_turns take_turn advance
overlapped_lem s b x y repo w one_in two_in = ground (arith, one_in, two_in)

module _ (s : Services) where
  abbrev World : Type 0
  World = s.World × List (Event s.LinuxSpec)

  create_admitted-ok :
      (spec : ContainerSpec (traced s)) (d : s.Container) (repo : Repo (traced s)) (w : World)
      → (create_admitted (traced s) spec repo w).2 ≡ ok d
      → ((create_admitted (traced s) spec repo w).0 ≡ add s.handle d repo)
        × ((l : s.LinuxSpec) × ((create_admitted (traced s) spec repo w).1.1 ≡ acquired l ∷ w.1))
  create_admitted-ok spec d repo w done = elim (create_admitted-log s spec repo w) [
    | inr (bad, _, _) ↦ absurd (bad d done)
    | inl (l, c, u, _, _, ended_ok, added, one_more) ↦
        let same : c ≡ d = cc (ended_ok, done) in
        (added ∙ ap (λ x. add s.handle x repo) same, (l, one_more))
  ]

  -- The second of two calls stores its container where the first did.
  overtaking :
      (x y : ContainerSpec (traced s)) (repo repo₁ repo₂ : Repo (traced s)) (w w₁ w₂ : World)
      (c d : s.Container)
      → IsBalanced s repo w
      → find_by_handle (s.handle c) repo ≡ none
      → s.handle d ≡ s.handle c
      → create_admitted (traced s) x repo w ≡ (repo₁, w₁, ok c)
      → create_admitted (traced s) y repo₁ w₁ ≡ (repo₂, w₂, ok d)
      → (find_by_handle (s.handle c) repo₂ ≡ some d)
        × (length repo₂ ≡ length repo + 1)
        × (acquisitions w₂.1 ≡ releases w₂.1 + length repo₂ + 1)
  unfolding find_by_handle add IsBalanced
  overtaking x y repo repo₁ repo₂ w w₁ w₂ c d v free same first second =
      let (added, (l, one_more)) = create_admitted-ok x c repo w (ap (λ r. r.2) first) in
      let (added', (l', one_more')) = create_admitted-ok y d repo₁ w₁ (ap (λ r. r.2) second) in
      let first_repo : repo₁ ≡ add s.handle c repo = sym (ap (λ r. r.0) first) ∙ added in
      let second_repo : repo₂ ≡ add s.handle d repo₁ = sym (ap (λ r. r.0) second) ∙ added' in
      let first_log : w₁.1 ≡ acquired l ∷ w.1 = ap (λ r. r.1.1) (sym first) ∙ one_more in
      let second_log : w₂.1 ≡ acquired l' ∷ w₁.1 = ap (λ r. r.1.1) (sym second) ∙ one_more' in
      let there : Map.lookup (s.handle d) repo₁ ≡ some c =
        ap (λ h. Map.lookup h repo₁) same
        ∙ ap (Map.lookup (s.handle c)) first_repo
        ∙ Map.lookup-insert (s.handle c) (s.handle c) c repo
        ∙ ground (arith, text_beq_iff (s.handle c) (s.handle c)) in
      let size : length repo₂ ≡ length repo + 1 =
        ap length second_repo
        ∙ length-insert_old (s.handle d) d c repo₁ there
        ∙ ap length first_repo
        ∙ length-insert_new (s.handle c) c repo free in
      (
        ap (Map.lookup (s.handle c)) second_repo
            ∙ Map.lookup-insert (s.handle d) (s.handle c) d repo₁
            ∙ ground (arith, text_beq_iff (s.handle d) (s.handle c), same),
        size,
        ground (
          arith,
          size,
          v.1,
          ap acquisitions first_log,
          ap acquisitions second_log,
          ap releases first_log,
          ap releases second_log,
        ),
      )

  -- If two calls of `Create` both pass the tests before either stores its container, and both
  -- succeed with containers of one handle that was free, then the handle finds the second alone,
  -- one container more is stored, and there is one acquisition without a call of `Release` more
  -- than there are stored containers; if their numbers agreed before.
  pub overlapped-overtaken :
      (b : Settings) (x y : ContainerSpec (traced s)) (repo : Repo (traced s)) (w : World)
      (c d : s.Container)
      → IsBalanced s repo w
      → admit (traced s) b x repo ≡ ok tt
      → admit (traced s) b y repo ≡ ok tt
      → find_by_handle (s.handle c) repo ≡ none
      → s.handle d ≡ s.handle c
      → (overlapped (traced s) b x y repo w).first ≡ ended (ok c)
      → (overlapped (traced s) b x y repo w).second ≡ ended (ok d)
      → let t = overlapped (traced s) b x y repo w in
        (find_by_handle (s.handle c) t.repo ≡ some d)
        × (length t.repo ≡ length repo + 1)
        × (acquisitions t.world.1 ≡ releases t.world.1 + length t.repo + 1)
  overlapped-overtaken b x y repo w c d v one_in two_in free same first second =
      let (repo₁, w₁, r₁) = create_admitted (traced s) x repo w in
      let (repo₂, w₂, r₂) = create_admitted (traced s) y repo₁ w₁ in
      let ran = overlapped_lem (traced s) b x y repo w one_in two_in in
      let first_ok : r₁ ≡ ok c = cc (ap (λ (t : Both (traced s)). t.first) ran, first) in
      let second_ok : r₂ ≡ ok d = cc (ap (λ (t : Both (traced s)). t.second) ran, second) in
      rw ran (
        overtaking x y repo repo₁ repo₂ w w₁ w₂ c d v free same (ap (λ r. (repo₁, w₁, r)) first_ok)
          (ap (λ r. (repo₂, w₂, r)) second_ok))
