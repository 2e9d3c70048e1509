-- ===== src/Repository.antt =====
-- container_repository/in_memory_container_repository.go: the containers by handle. Each method
-- holds the repository's lock, so that it is one step.
pub mod Latest
pub mod Query
mod Tests
use garden_linux.Common.{
  ℕ, zero, suc, ◌+◌, ◌-◌, ◌*◌, ◌/◌, ◌%◌, ◌^◌, ◌≤◌, ◌<◌, ◌≡◌, ◌≢◌, ◌↔◌, ◌⊎◌, inl, inr, refl, sym, ap,
  ◌∙◌, Bool, true, false, not, ◌&&◌, ◌||◌, List, [], ◌∷◌, ◌++◌, map, append-nil, append_assoc,
  Option, none, some, ◌==◌, ==_iff, if◌then◌else◌, leb, ltb, length, length-append, take, drop, set,
  count, count-append, All, Outcome, ok, err, panic, ◌>>=◌, >>=-eq-ok, arith, Bool-cases,
  Option-cases, List-cases, lt-or-ge, eq-or-ne, Text, codes, text_beq, text_beq_iff, text_eq,
  nat_eq, Eq, snoc-ne-nil, Outcome-cases, range, replicate,
}
use garden_linux.Common.Map
use garden_linux.Common.Map.{Map}

-- Of `linux_backend.Container` the repository calls `Handle` alone.
module _ {C : Type 0} (handle : C → Text) where
  unfoldable pub add : C → Map Text C → Map Text C
  add c store = Map.insert (handle c) c store

  unfoldable pub delete : C → Map Text C → Map Text C
  delete c store = Map.delete (handle c) store

-- `none` is `garden.ContainerNotFoundError` of the handle.
unfoldable pub find_by_handle : {C : Type 0} → Text → Map Text C → Option C
find_by_handle h store = Map.lookup h store

unfoldable pub query : {C : Type 0} → (C → Bool) → Map Text C → List C
query filter [] = []
query filter ((h, c) ∷ store) = let rest = query filter store in if filter c then c ∷ rest else rest

unfoldable pub all : {C : Type 0} → Map Text C → List C
unfolding query
all store = query (λ c. true) store
