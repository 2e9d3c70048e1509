-- ===== src/Environment/RoundTrip.antt =====
-- NewEnv, Merge and Array of process/env.go together.
use garden_linux.Common.{
  ◌≡◌, inl, inr, refl, ap, ◌∙◌, [], ◌∷◌, Option, none, some, ok, arith, Bool-cases, Text, text_beq,
  text_beq_iff, text_eq, nat_eq,
}
use garden_linux.Common.Map
use garden_linux.Common.Map.{Map, UniqueKeys}
use garden_linux.Environment.{add_lines, new_env, write_all, merge, array}
use garden_linux.Environment.Lines.{
  IsName, AllNames, add_lines-map, sort_strings-map, sort_entries, sort_entries-AllNames,
  place-UniqueKeys, lookup-place, has_key-place,
}

has_key-sort_entries :
    (ps : Map Text Text) (k : Text) → Map.has_key k (sort_entries ps) ≡ Map.has_key k ps
unfolding sort_entries Map.has_key
has_key-sort_entries [] k = refl
has_key-sort_entries (p ∷ ps) k =
    ground (arith, has_key-place p (sort_entries ps) k, has_key-sort_entries ps k)

sort_entries-UniqueKeys : (ps : Map Text Text) → UniqueKeys ps → UniqueKeys (sort_entries ps)
unfolding sort_entries
sort_entries-UniqueKeys [] u = tt
sort_entries-UniqueKeys (p ∷ ps) u =
    place-UniqueKeys p (sort_entries ps) (has_key-sort_entries ps p.0 ∙ u.0)
      (sort_entries-UniqueKeys ps u.1)

lookup-sort_entries :
    (ps : Map Text Text) (k : Text)
    → UniqueKeys ps
    → Map.lookup k (sort_entries ps) ≡ Map.lookup k ps
unfolding sort_entries Map.lookup
lookup-sort_entries [] k u = refl
lookup-sort_entries (p ∷ ps) k u = ground (
  arith,
  lookup-place p (sort_entries ps) k,
  has_key-sort_entries ps p.0,
  lookup-sort_entries ps k,
)

abbrev pub or_else : Option Text → Option Text → Option Text
or_else none old = old
or_else (some v) old = some v

-- What is written last stands.
lookup-write_all :
    (ps acc : Map Text Text) (k : Text)
    → UniqueKeys ps
    → Map.lookup k (write_all ps acc) ≡ or_else (Map.lookup k ps) (Map.lookup k acc)
unfolding write_all Map.lookup
lookup-write_all [] acc k u = refl
lookup-write_all ((j, v) ∷ ps) acc k u = ground (
  arith,
  lookup-write_all ps (Map.insert j v acc) k,
  Map.lookup-insert j k v acc,
  Map.has_key-lookup k ps,
  text_beq_iff j k,
)

write_all-UniqueKeys : (ps acc : Map Text Text) → UniqueKeys acc → UniqueKeys (write_all ps acc)
unfolding write_all
write_all-UniqueKeys [] acc u = u
write_all-UniqueKeys ((j, v) ∷ ps) acc u =
    write_all-UniqueKeys ps (Map.insert j v acc) (Map.insert-UniqueKeys j v acc u)

insert-AllNames :
    (k v : Text) (m : Map Text Text) → IsName k → AllNames m → AllNames (Map.insert k v m)
unfolding Map.insert AllNames
insert-AllNames k v [] n h = (n, tt)
insert-AllNames k v ((j, w) ∷ m) n h = elim (Bool-cases (text_beq j k)) [
  | inl same ↦ rw same (n, h.1)
  | inr other ↦ rw other (h.0, insert-AllNames k v m n h.1)
]

write_all-AllNames :
    (ps acc : Map Text Text) → AllNames ps → AllNames acc → AllNames (write_all ps acc)
unfolding write_all AllNames
write_all-AllNames [] acc h a = a
write_all-AllNames ((j, v) ∷ ps) acc h a =
    write_all-AllNames ps (Map.insert j v acc) h.1 (insert-AllNames j v acc h.0 a)

-- The lines of an environment are read back to an environment with the same entries.
new_env-array :
    (env : Map Text Text)
    → UniqueKeys env
    → AllNames env
    → (e : Map Text Text) × (new_env (array env) ≡ ok e)
      × ((k : Text) → Map.lookup k e ≡ Map.lookup k env)
unfolding new_env array Map.lookup
new_env-array env u n = (
  write_all (sort_entries env) [],
  ap (λ ls. add_lines ls []) (sort_strings-map env)
      ∙ add_lines-map (sort_entries env) [] (sort_entries-AllNames env n),
  λ k. ground (
    arith,
    lookup-write_all (sort_entries env) [] k (sort_entries-UniqueKeys env u),
    lookup-sort_entries env k u,
  ),
)

-- For two environments whose names are unique, not empty and without `=`: what `Array` prints of
-- their `Merge` is read back by `NewEnv`, and each name then has the value of the second
-- environment, or that of the first if the second lacks it.
pub new_env-array-merge :
    (env other : Map Text Text)
    → UniqueKeys env
    → UniqueKeys other
    → AllNames env
    → AllNames other
    → (e : Map Text Text) × (new_env (array (merge env other)) ≡ ok e)
      × ((k : Text) → Map.lookup k e ≡ or_else (Map.lookup k other) (Map.lookup k env))
unfolding merge AllNames Map.lookup
new_env-array-merge env other u v n o =
    let unique = write_all-UniqueKeys other (write_all env []) (write_all-UniqueKeys env [] tt) in
    let names = write_all-AllNames other (write_all env []) o (write_all-AllNames env [] n tt) in
    let (e, read, same) = new_env-array (write_all other (write_all env [])) unique names in
    (
      e,
      read,
      λ k. ground (
        arith,
        same k,
        lookup-write_all other (write_all env []) k v,
        lookup-write_all env [] k u,
      ),
    )
