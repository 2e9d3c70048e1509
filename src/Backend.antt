-- ===== src/Backend.antt =====
-- linux_backend/linux_backend.go: containers are created, found, saved, restored and destroyed.
pub mod Restoring
pub mod Bulk
pub mod Size
pub mod Traced
pub mod Created
pub mod Destroyed
pub mod Overtaken
pub mod Tests
use garden_linux.Common.{
  ℕ, zero, suc, ◌+◌, ◌-◌, ◌*◌, ◌/◌, ◌%◌, ◌^◌, ◌≤◌, ◌<◌, ◌≡◌, ◌≢◌, ◌↔◌, ◌⊎◌, inl, inr, refl, sym, ap,
  ◌∙◌, Bool, true, false, not, ◌&&◌, ◌||◌, List, [], ◌∷◌, ◌++◌, map, append-nil, append_assoc,
  Option, none, some, ◌==◌, ==_iff, if◌then◌else◌, leb, ltb, length, length-append, take, drop, set,
  count, count-append, All, Outcome, ok, err, panic, ◌>>=◌, >>=-eq-ok, arith, Bool-cases,
  Option-cases, List-cases, lt-or-ge, eq-or-ne, Text, codes, text_beq, text_beq_iff, text_eq,
  nat_eq, Eq, snoc-ne-nil, Outcome-cases, range, replicate,
}
use garden_linux.Common.Map
use garden_linux.Common.Map.{Map}
use garden_linux.Repository.{add, delete, find_by_handle, query, all}

-- What the backend calls through Go interfaces, over the state of the world: `Container` is a
-- reference, whose handle and id do not change; the resource pool; the provider of containers;
-- the providers of health and system information; and the file system. A nil error is `none`.
pub record Services : Type 1 where
  pub World : Type 0
  pub Container : Type 0
  pub LinuxSpec : Type 0
  pub Request : Type 0
  pub Disk : Type 0
  pub Bandwidth : Type 0
  pub Info : Type 0
  pub Metrics : Type 0
  pub id : Container → Text
  pub handle : Container → Text
  pub has_properties : Map Text Text → Container → World → Bool
  pub resource_spec : Container → World → LinuxSpec
  pub start_container : Container → World → World × Option Text
  pub cleanup : Container → World → World × Option Text
  pub restore_container : LinuxSpec → Container → World → World × Option Text
  pub snapshot : Text → Container → World → World × Option Text
  pub info : Container → World → Outcome Text Info
  pub metrics : Container → World → Outcome Text Metrics
  pub limit_cpu : ℕ → Container → World → World × Option Text
  pub limit_disk : Disk → Container → World → World × Option Text
  pub limit_bandwidth : Bandwidth → Container → World → World × Option Text
  pub limit_memory : ℕ → Container → World → World × Option Text
  pub is_zero_disk : Disk → Bool
  pub is_zero_bandwidth : Bandwidth → Bool
  pub setup : World → World × Option Text
  pub acquire : Request → World → World × Outcome Text LinuxSpec
  pub release : LinuxSpec → World → World × Option Text
  pub restore : Option Text → World → World × Outcome Text LinuxSpec
  pub prune : List Text → World → World × Option Text
  pub pool_max_containers : ℕ
  pub provide : LinuxSpec → World → World × Container
  pub health_check : World → Option Text
  pub total_memory : World → Outcome Text ℕ
  pub total_disk : World → Outcome Text ℕ
  pub stat : Text → World → Bool
  pub read_dir : Text → World → Outcome Text (List Text)
  pub open_file : Text → World → Option Text
  pub create_file : Text → World → World × Option Text
  pub close_file : Text → World → World × Option Text
  pub remove_all : Text → World → World
  pub mkdir_all : Text → World → World × Option Text

pub data BackendError : Type 0 where
  handle_exists not_found failed_to_snapshot unrecoverable failed : Text → BackendError
  max_containers_reached : ℕ → BackendError

-- `garden.Limits`: values, not pointers.
pub record Limits (Disk Bandwidth : Type 0) : Type 0 where
  pub cpu : ℕ
  pub disk : Disk
  pub bandwidth : Bandwidth
  pub memory : ℕ

-- `garden.ContainerSpec`: the handle and the limits; the rest is for the pool alone.
pub record ContainerSpec (s : Services) : Type 0 where
  pub handle : Text
  pub limits : Limits s.Disk s.Bandwidth
  pub request : s.Request

-- The fields that are set once; a limit of 0 is no limit, and so is one below it in Go.
pub record Settings : Type 0 where
  pub snapshots_path : Text
  pub max_containers : ℕ

abbrev pub Repo : Services → Type 0
Repo s = Map Text s.Container

-- A method returns the repository, the world and its result.
abbrev pub Result : Services → Type 0 → Type 0
Result s A = Repo s × s.World × Outcome BackendError A

-- A nil error goes on, another one is returned.
abbrev pub checked : Option Text → Outcome BackendError (Unit {0})
checked none = ok tt
checked (some e) = err (failed e)

abbrev pub or_failed : {A : Type 0} → Outcome Text A → Outcome BackendError A
or_failed (ok a) = ok a
or_failed (err e) = err (failed e)
or_failed panic = panic

-- `path.Join(directory, name)` for a clean directory.
abbrev pub file_in : Text → Text → Text
file_in directory name = directory ++ codes "/" ++ name

module _ (s : Services) where
  unfoldable pub ping : s.World → Outcome BackendError (Unit {0})
  ping w = elim (s.health_check w) [ none ↦ ok tt | some e ↦ err (unrecoverable e) ]

  -- The memory, the disk and the number of containers.
  unfoldable pub capacity : Settings → s.World → Outcome BackendError (ℕ × ℕ × ℕ)
  capacity b w = do
    memory ← or_failed (s.total_memory w)
    disk ← or_failed (s.total_disk w)
    let most = s.pool_max_containers
    ok (
      memory,
      disk,
      if ltb 0 b.max_containers && ltb b.max_containers most then b.max_containers else most,
    )

  -- `if test { if err := call; err != nil { return err } }`.
  unfoldable pub limit_if :
      Bool → (s.World → s.World × Option Text) → s.World → s.World × Option Text
  limit_if test call w = if test then call w else (w, none)

  unfoldable pub then_do :
      s.World × Option Text → (s.World → s.World × Option Text) → s.World × Option Text
  then_do (w, none) next = next w
  then_do (w, some e) next = (w, some e)

  unfoldable pub apply_limits :
      s.Container → Limits s.Disk s.Bandwidth → s.World → s.World × Option Text
  unfolding limit_if then_do
  apply_limits c l w =
      then_do
        (then_do
          (then_do (limit_if (ltb 0 l.cpu) (s.limit_cpu l.cpu c) w)
            (limit_if (not (s.is_zero_disk l.disk)) (s.limit_disk l.disk c)))
          (limit_if (not (s.is_zero_bandwidth l.bandwidth)) (s.limit_bandwidth l.bandwidth c)))
        (limit_if (ltb 0 l.memory) (s.limit_memory l.memory c))

  -- The tests of `Create` before it calls the pool.
  unfoldable pub admit : Settings → ContainerSpec s → Repo s → Outcome BackendError (Unit {0})
  admit b spec repo =
      let found : Bool = elim (find_by_handle spec.handle repo) [ none ↦ false | some c ↦ true ] in
      if not (text_beq spec.handle []) && found
      then err (handle_exists spec.handle)
      else if ltb 0 b.max_containers && leb b.max_containers (length (all repo))
      then err (max_containers_reached b.max_containers)
      else ok tt

  -- `Create` from the start of the container on; a failure releases what was acquired, and the
  -- error of that is dropped.
  unfoldable pub start_provided :
      ContainerSpec s → s.LinuxSpec → s.Container → Repo s → s.World → Result s s.Container
  start_provided spec linux c repo w =
      let (w₁, not_started) = s.start_container c w in
      elim not_started [
        | some e ↦ (repo, (s.release linux w₁).0, err (failed e))
        | none ↦
            let (w₂, not_limited) = apply_limits c spec.limits w₁ in
            elim not_limited [
              | some e ↦ (repo, (s.release linux w₂).0, err (failed e))
              | none ↦ (add s.handle c repo, w₂, ok c)
            ]
      ]

  -- `Create` from the call of the pool on.
  unfoldable pub create_admitted : ContainerSpec s → Repo s → s.World → Result s s.Container
  unfolding start_provided
  create_admitted spec repo w =
      let (w₁, acquired) = s.acquire spec.request w in
      elim acquired [
        | err e ↦ (repo, w₁, err (failed e))
        | panic ↦ (repo, w₁, panic)
        | ok linux ↦ let (w₂, c) = s.provide linux w₁ in start_provided spec linux c repo w₂
      ]

  unfoldable pub create : Settings → ContainerSpec s → Repo s → s.World → Result s s.Container
  unfolding admit create_admitted
  create b spec repo w = elim (admit b spec repo) [
    | ok _ ↦ create_admitted spec repo w
    | err e ↦ (repo, w, err e)
    | panic ↦ (repo, w, panic)
  ]

  unfoldable pub destroy : Text → Repo s → s.World → Result s (Unit {0})
  destroy handle repo w = elim (find_by_handle handle repo) [
    | none ↦ (repo, w, err (not_found handle))
    | some c ↦
        let repo' = delete s.handle c repo in
        let (w₁, not_clean) = s.cleanup c w in
        elim not_clean [
          | some e ↦ (repo', w₁, err (failed e))
          | none ↦
              let (w₂, not_released) = s.release (s.resource_spec c w₁) w₁ in
              (repo', w₂, checked not_released)
        ]
  ]

  unfoldable pub lookup : Text → Repo s → Outcome BackendError s.Container
  lookup handle repo = elim (find_by_handle handle repo) [
    | none ↦ err (not_found handle)
    | some c ↦ ok c
  ]

  -- `Containers`, by `withProperties`.
  unfoldable pub containers : Map Text Text → Repo s → s.World → List s.Container
  containers props repo w = query (λ c. s.has_properties props c w) repo
