-- ===== src/Repository/Latest.antt =====
-- What FindByHandle returns after any sequence of calls.
use garden_linux.Common.{
  ◌≡◌, refl, ap, ◌∙◌, List, [], ◌∷◌, Option, none, some, if◌then◌else◌, arith, Text, text_beq,
  text_beq_iff, text_eq, nat_eq,
}
use garden_linux.Common.Map
use garden_linux.Common.Map.{Map, UniqueKeys}
use garden_linux.Repository.{add, delete, find_by_handle}

pub data Op (C : Type 0) : Type 0 where
  adds : C → Op C
  deletes : C → Op C

module _ {C : Type 0} (handle : C → Text) where
  unfoldable pub step : Op C → Map Text C → Map Text C
  step (adds c) store = add handle c store
  step (deletes c) store = delete handle c store

  unfoldable pub run : List (Op C) → Map Text C → Map Text C
  unfolding step
  run [] store = store
  run (op ∷ ops) store = run ops (step op store)

  -- The container that the last call on a handle leaves there.
  unfoldable pub latest : Text → List (Op C) → Option C → Option C
  latest h [] old = old
  latest h (adds c ∷ ops) old = latest h ops (if text_beq (handle c) h then some c else old)
  latest h (deletes c ∷ ops) old = latest h ops (if text_beq (handle c) h then none else old)

  -- After any sequence of `Add` and `Delete`, `FindByHandle` returns the container that was added
  -- last under the handle, or that was there before, if none of the handle was deleted since.
  pub find_by_handle-run :
      (ops : List (Op C)) (store : Map Text C) (h : Text)
      → find_by_handle h (run ops store) ≡ latest h ops (find_by_handle h store)
  unfolding run latest step find_by_handle add delete
  find_by_handle-run [] store h = refl
  find_by_handle-run (adds c ∷ ops) store h =
      find_by_handle-run ops (add handle c store) h
      ∙ ap (latest h ops) (Map.lookup-insert (handle c) h c store)
  find_by_handle-run (deletes c ∷ ops) store h =
      find_by_handle-run ops (delete handle c store) h
      ∙ ap (latest h ops) (Map.lookup-delete (handle c) h store)

  -- Each handle has one entry, which holds a container of that handle.
  unfoldable pub IsIndexed : Map Text C → Type 0
  IsIndexed store =
      UniqueKeys store × ((h : Text) (c : C) → Map.lookup h store ≡ some c → handle c ≡ h)

  pub run-IsIndexed :
      (ops : List (Op C)) (store : Map Text C) → IsIndexed store → IsIndexed (run ops store)
  unfolding run step add delete IsIndexed
  run-IsIndexed [] store v = v
  run-IsIndexed (adds c ∷ ops) store v = run-IsIndexed ops (add handle c store) (
    Map.insert-UniqueKeys (handle c) c store v.0,
    λ h d e.
        ground (arith, Map.lookup-insert (handle c) h c store, text_beq_iff (handle c) h, v.1 h d),
  )
  run-IsIndexed (deletes c ∷ ops) store v = run-IsIndexed ops (delete handle c store) (
    Map.delete-UniqueKeys (handle c) store v.0,
    λ h d e.
        ground (arith, Map.lookup-delete (handle c) h store, text_beq_iff (handle c) h, v.1 h d),
  )
