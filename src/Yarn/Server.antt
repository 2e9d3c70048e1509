-- ===== src/Yarn/Server.antt =====
-- The `YarnBackend` of YarnBackend.go. The wrapped backend is a record of its operations; the
-- containers of the nide manager live in a store, since a client keeps the pointer that `Create`
-- returned, and a pointer is an index of the store.
use garden_linux.Common.{
  ℕ, zero, suc, ◌-◌, Bool, true, false, List, [], ◌∷◌, ◌++◌, Option, none, some, if◌then◌else◌,
  length, take, set, Outcome, ok, err, panic, ◌>>=◌, Text, codes, text_beq, text_eq, nat_eq,
}
use garden_linux.Common.Map.{Map, insert}
use garden_linux.Bridges.{has_prefix}
use garden_linux.Yarn.Nide.{
  LimitTypes, YarnContainer, Info, Metrics, nm_handler, kill, info, made_up, blank,
}

-- `garden.Backend`. The struct of `Info` is the backend's own, and so is that of `Metrics`.
pub record RealBackend : Type 1 where
  pub State : Type 0
  pub Error : Type 0
  pub Container : Type 0
  pub Spec : Type 0
  pub Capacity : Type 0
  pub InfoEntry : Type 0
  pub MetricsEntry : Type 0
  pub rootfs_path : Spec → Text
  pub info_entry : Info → InfoEntry
  pub metrics_entry : Metrics → MetricsEntry
  pub start : State → State × Option Error
  pub stop : State → State
  pub grace_time : Container → State → ℕ
  pub ping : State → Option Error
  pub capacity : State → Outcome Error Capacity
  pub create : Spec → State → State × Outcome Error Container
  pub destroy : Text → State → State × Option Error
  pub containers : Map Text Text → State → Outcome Error (List Container)
  pub bulk_info : List Text → State → Outcome Error (Map Text InfoEntry)
  pub bulk_metrics : List Text → State → Outcome Error (Map Text MetricsEntry)
  pub lookup : Text → State → Outcome Error Container

-- A `garden.Container`: a pointer to a container of the nide manager, perhaps nil, or a container of
-- the wrapped backend.
pub data AnyContainer (C : Type 0) : Type 0 where
  nide : Option ℕ → AnyContainer C
  real : C → AnyContainer C

pub record YarnBackend (r : RealBackend) (l : LimitTypes) : Type 0 where
  pub real_backend : r.State
  pub store : List (YarnContainer l)
  pub yarn_container : Option ℕ

abbrev pub deref {ℓ} : {A : Type ℓ} → ℕ → List A → Option A
deref n [] = none
deref zero (x ∷ xs) = some x
deref (suc n) (x ∷ xs) = deref n xs

abbrev pub update {ℓ} : {A : Type ℓ} → ℕ → (A → A) → List A → List A
update n f [] = []
update zero f (x ∷ xs) = f x ∷ xs
update (suc n) f (x ∷ xs) = x ∷ update n f xs

abbrev pub last_of : List Text → Text
last_of [] = []
last_of (w ∷ []) = w
last_of (v ∷ w ∷ ws) = last_of (w ∷ ws)

-- What `removeHandle` returns, and what the slice of its caller holds after it.
pub record Removed : Type 0 where
  pub handles : List Text
  pub found : Bool
  pub callers : List Text

-- The loop from index i on, where `rest` begins.
unfoldable pub remove_from : List Text → ℕ → List Text → Removed
remove_from handles i [] = record { handles = handles; found = false; callers = handles }
remove_from handles i (handle ∷ rest) =
    let more = remove_from handles (suc i) rest in
    let swapped = set handles i (last_of handles) in
    if text_beq handle nm_handler
    then record {
      handles = take (length handles - 1) swapped;
      found = true;
      callers = set swapped (length handles - 1) [];
    }
    else more

unfoldable pub remove_handle : List Text → Removed
unfolding remove_from
remove_handle handles = remove_from handles 0 handles

module _ {r : RealBackend} {l : LimitTypes} where
  unfoldable pub start : YarnBackend r l → YarnBackend r l × Option r.Error
  start b = let (s, e) = r.start b.real_backend in (record b { real_backend = s }, e)

  unfoldable pub stop : YarnBackend r l → YarnBackend r l
  stop b = record b { real_backend = r.stop b.real_backend }

  unfoldable pub ping : YarnBackend r l → Option r.Error
  ping b = r.ping b.real_backend

  unfoldable pub capacity : YarnBackend r l → Outcome r.Error r.Capacity
  capacity b = r.capacity b.real_backend

  -- `none` is what the wrapped backend makes of a container that is not its own.
  unfoldable pub grace_time : AnyContainer r.Container → YarnBackend r l → Option ℕ
  grace_time (nide _) b = none
  grace_time (real c) b = some (r.grace_time c b.real_backend)

  unfoldable pub create :
      r.Spec → YarnBackend r l → YarnBackend r l × Outcome r.Error (AnyContainer r.Container)
  unfolding blank
  create spec b =
      if has_prefix (r.rootfs_path spec) (codes "yarn://nodemanager")
      then (
        record b { store = b.store ++ blank ∷ []; yarn_container = some (length b.store) },
        ok (nide (some (length b.store))),
      )
      else let (s, result) = r.create spec b.real_backend in
        elim result [
          | ok c ↦ (record b { real_backend = s }, ok (real c))
          | err e ↦ (record b { real_backend = s }, err e)
          | panic ↦ (record b { real_backend = s }, panic)
        ]

  abbrev real_destroy : Text → YarnBackend r l → YarnBackend r l × Outcome r.Error (Unit {0})
  real_destroy handle b =
      let (s, failed) = r.destroy handle b.real_backend in
      elim failed [
        | none ↦ (record b { real_backend = s }, ok (record {}))
        | some e ↦ (record b { real_backend = s }, err e)
      ]

  -- `kill` of a nil pointer panics.
  unfoldable pub destroy : Text → YarnBackend r l → YarnBackend r l × Outcome r.Error (Unit {0})
  unfolding kill
  destroy handle b =
      if text_beq handle nm_handler
      then elim b.yarn_container [
        | none ↦ (b, panic)
        | some p ↦
            real_destroy handle (record b { store = update p kill b.store; yarn_container = none })
      ]
      else real_destroy handle b

  unfoldable pub containers : Map Text Text → YarnBackend r l → Outcome r.Error (List r.Container)
  containers p b = r.containers p b.real_backend

  abbrev pub current : YarnBackend r l → Option (YarnContainer l)
  current b = elim b.yarn_container [ none ↦ none | some p ↦ deref p b.store ]

  -- `Info` of a nil pointer panics; the entry's error is always nil.
  unfoldable pub bulk_info : List Text → YarnBackend r l → Outcome r.Error (Map Text r.InfoEntry)
  unfolding info remove_handle
  bulk_info handles b =
      let removed = remove_handle handles in
      r.bulk_info removed.handles b.real_backend >>= λ entries.
      if removed.found
      then elim (current b) [
        | none ↦ panic
        | some c ↦ ok (insert nm_handler (r.info_entry (info c)) entries)
      ]
      else ok entries

  -- `Metrics` does not read the pointer.
  unfoldable pub bulk_metrics :
      List Text → YarnBackend r l → Outcome r.Error (Map Text r.MetricsEntry)
  unfolding made_up remove_handle
  bulk_metrics handles b =
      let removed = remove_handle handles in
      r.bulk_metrics removed.handles b.real_backend >>= λ entries.
      if removed.found then ok (insert nm_handler (r.metrics_entry made_up) entries) else ok entries

  -- The pointer may be nil, and the error is nil all the same.
  unfoldable pub lookup_container :
      Text → YarnBackend r l → Outcome r.Error (AnyContainer r.Container)
  lookup_container handle b =
      if text_beq handle nm_handler
      then ok (nide b.yarn_container)
      else r.lookup handle b.real_backend >>= λ c. ok (real c)
