-- ===== src/Backend/Bulk.antt =====
-- linux_backend/linux_backend.go: BulkInfo and BulkMetrics, by handle.
use garden_linux.Common.{
  ◌≡◌, inl, inr, refl, ap, ◌∙◌, Bool, false, ◌||◌, List, [], ◌∷◌, Option, none, some, if◌then◌else◌,
  Outcome, arith, Bool-cases, Text, text_beq, text_beq_iff, text_eq, nat_eq,
}
use mathlib.Core.Option
use garden_linux.Common.Map
use garden_linux.Common.Map.{Map, UniqueKeys}
use garden_linux.Repository.{find_by_handle, query}
use garden_linux.Repository.Latest.{IsIndexed, run, Op, run-IsIndexed}
use garden_linux.Repository.Query.{rest-IsIndexed}
use garden_linux.Backend.{Services, Repo}

-- `withHandles`.
unfoldable pub with_handles : {C : Type 0} → (C → Text) → List Text → C → Bool
with_handles handle [] c = false
with_handles handle (e ∷ handles) c = text_beq e (handle c) || with_handles handle handles c

-- `for _, container := range containers { infos[container.Handle()] = … }`.
unfoldable pub collect : {C V : Type 0} → (C → Text) → (C → V) → List C → Map Text V → Map Text V
collect handle entry [] infos = infos
collect handle entry (c ∷ cs) infos =
    collect handle entry cs (Map.insert (handle c) (entry c) infos)

module _ (s : Services) where
  -- An entry is the information or the message of the error.
  unfoldable pub bulk_info : List Text → Repo s → s.World → Map Text (Outcome Text s.Info)
  unfolding with_handles collect
  bulk_info handles repo w =
      collect s.handle (λ c. s.info c w) (query (with_handles s.handle handles) repo) []

  unfoldable pub bulk_metrics : List Text → Repo s → s.World → Map Text (Outcome Text s.Metrics)
  unfolding with_handles collect
  bulk_metrics handles repo w =
      collect s.handle (λ c. s.metrics c w) (query (with_handles s.handle handles) repo) []

-- A text is one of a list.
unfoldable pub among : Text → List Text → Bool
among h [] = false
among h (e ∷ es) = text_beq e h || among h es

module _ {C : Type 0} (handle : C → Text) where
  with_handles-among :
      (handles : List Text) (c : C) → with_handles handle handles c ≡ among (handle c) handles
  unfolding with_handles among
  with_handles-among [] c = refl
  with_handles-among (e ∷ es) c = ap (λ b. text_beq e (handle c) || b) (with_handles-among es c)

module _ {C V : Type 0} (handle : C → Text) (entry : C → V) where
  -- What stands under a handle after `collect`: the entry of the stored container, if its handle
  -- is listed.
  entry_or : List Text → Text → Option C → Option V → Option V
  entry_or handles h none old = old
  entry_or handles h (some c) old = if among h handles then some (entry c) else old

  lookup-collect :
      (handles : List Text) (store : Map Text C) (infos : Map Text V) (h : Text)
      → IsIndexed handle store
      → Map.lookup h (collect handle entry (query (with_handles handle handles) store) infos)
        ≡ entry_or handles h (Map.lookup h store) (Map.lookup h infos)
  unfolding query collect Map.lookup IsIndexed entry_or
  lookup-collect handles [] infos h v = refl
  lookup-collect handles ((j, x) ∷ store) infos h v =
      let rest = rest-IsIndexed handle j x store v in
      let own : handle x ≡ j = v.1 j x (ground (arith, text_beq_iff j j)) in
      let listed = with_handles-among handle handles x in
      let absent = Map.has_key-lookup h store in
      elim (Bool-cases (with_handles handle handles x)) [
        | inl asked ↦ rw asked (
            lookup-collect handles store (Map.insert (handle x) (entry x) infos) h rest
            ∙ ground (
              arith,
              text_beq_iff j h,
              own,
              listed,
              asked,
              absent,
              v.0.0,
              Map.lookup-insert (handle x) h (entry x) infos,
            ))
        | inr other ↦ rw other (
            lookup-collect handles store infos h rest
            ∙ ground (arith, text_beq_iff j h, own, listed, other, absent, v.0.0))
      ]

  entry_or-map :
      (handles : List Text) (h : Text) (found : Option C)
      → entry_or handles h found none ≡ (if among h handles then Option.map entry found else none)
  unfolding entry_or
  entry_or-map handles h none = ground arith
  entry_or-map handles h (some c) = refl

  -- After any calls of `Add` and `Delete`.
  lookup-collect_run :
      (ops : List (Op C)) (handles : List Text) (h : Text)
      → Map.lookup h
          (collect handle entry (query (with_handles handle handles) (run handle ops [])) [])
        ≡ entry_or handles h (find_by_handle h (run handle ops [])) none
  unfolding find_by_handle Map.lookup IsIndexed
  lookup-collect_run ops handles h =
      lookup-collect handles (run handle ops []) [] h
        (run-IsIndexed handle ops [] (tt, λ j d e. absurd (cc)))

-- After any sequence of `Add` and `Delete` on an empty repository, `BulkInfo` and `BulkMetrics`
-- have an entry for a handle exactly if it was asked for and `FindByHandle` returns a container,
-- and the entry is what that container's `Info` or `Metrics` returns.
pub bulk-find_by_handle :
    (s : Services) (ops : List (Op s.Container)) (handles : List Text) (h : Text) (w : s.World)
    → let repo = run s.handle ops [] in
      (Map.lookup h (bulk_info s handles repo w)
        ≡ (if among h handles then Option.map (λ c. s.info c w) (find_by_handle h repo) else none))
      × (Map.lookup h (bulk_metrics s handles repo w) ≡ (
          if among h handles
          then Option.map (λ c. s.metrics c w) (find_by_handle h repo)
          else none))
unfolding bulk_info bulk_metrics
bulk-find_by_handle s ops handles h w =
    let repo = run s.handle ops [] in
    (
      lookup-collect_run s.handle (λ c. s.info c w) ops handles h
          ∙ entry_or-map s.handle (λ c. s.info c w) handles h (find_by_handle h repo),
      lookup-collect_run s.handle (λ c. s.metrics c w) ops handles h
          ∙ entry_or-map s.handle (λ c. s.metrics c w) handles h (find_by_handle h repo),
    )
