-- ===== src/Environment/Lines.antt =====
-- The lines that Array of process/env.go prints: how NewEnv reads them, and their order.
use garden_linux.Common.{
  ◌≡◌, ◌≢◌, inl, inr, refl, ap, ◌∙◌, false, ◌||◌, [], ◌∷◌, ◌++◌, map, some, if◌then◌else◌, count,
  ok, arith, Bool-cases, Text, text_beq, text_beq_iff, text_eq, nat_eq,
}
use garden_linux.Common.Map
use garden_linux.Common.Map.{Map, UniqueKeys}
use garden_linux.Environment.{
  split_n, add_lines, write_all, text_leb, insert_sorted, sort_strings, line_of,
}

-- A name that can be printed: it is not empty and has no `=`.
unfoldable pub IsName : Text → Type 0
IsName k = (k ≢ []) × (count 61 k ≡ 0)

unfoldable pub AllNames : Map Text Text → Type 0
AllNames [] = Unit
AllNames ((k, v) ∷ m) = IsName k × AllNames m

pub split_n-line : (k v : Text) → count 61 k ≡ 0 → split_n (k ++ 61 ∷ v) ≡ some (k, v)
unfolding split_n
split_n-line [] v h = refl
split_n-line (c ∷ k) v h = ground (arith, split_n-line k v)

line_ne_nil : (k v : Text) → text_beq (k ++ 61 ∷ v) [] ≡ false
line_ne_nil [] v = refl
line_ne_nil (c ∷ k) v = refl

-- Lines of names are all read, in order.
pub add_lines-map :
    (ps acc : Map Text Text) → AllNames ps → add_lines (map line_of ps) acc ≡ ok (write_all ps acc)
unfolding add_lines line_of write_all AllNames IsName
add_lines-map [] acc h = refl
add_lines-map ((k, v) ∷ ps) acc h =
    let named : text_beq k [] ≡ false = ground (arith, text_beq_iff k [], h.0.0) in
    rw (line_ne_nil k v, split_n-line k v h.0.1, named) (add_lines-map ps (Map.insert k v acc) h.1)

-- The sort of the lines, as a sort of the entries.
unfoldable pub place : Text × Text → Map Text Text → Map Text Text
place p [] = p ∷ []
place p (q ∷ ps) = if text_leb (line_of p) (line_of q) then p ∷ q ∷ ps else q ∷ place p ps

unfoldable pub sort_entries : Map Text Text → Map Text Text
sort_entries [] = []
sort_entries (p ∷ ps) = place p (sort_entries ps)

insert_sorted-map :
    (p : Text × Text) (ps : Map Text Text)
    → insert_sorted (line_of p) (map line_of ps) ≡ map line_of (place p ps)
unfolding insert_sorted place
insert_sorted-map p [] = refl
insert_sorted-map p (q ∷ ps) = ground (arith, insert_sorted-map p ps)

pub sort_strings-map :
    (ps : Map Text Text) → sort_strings (map line_of ps) ≡ map line_of (sort_entries ps)
unfolding sort_strings sort_entries
sort_strings-map [] = refl
sort_strings-map (p ∷ ps) =
    ap (insert_sorted (line_of p)) (sort_strings-map ps) ∙ insert_sorted-map p (sort_entries ps)

place-AllNames :
    (p : Text × Text) (ps : Map Text Text) → IsName p.0 → AllNames ps → AllNames (place p ps)
unfolding place AllNames
place-AllNames p [] n h = (n, tt)
place-AllNames p (q ∷ ps) n h = elim (Bool-cases (text_leb (line_of p) (line_of q))) [
  | inl first ↦ rw first (n, h)
  | inr later ↦ rw later (h.0, place-AllNames p ps n h.1)
]

pub sort_entries-AllNames : (ps : Map Text Text) → AllNames ps → AllNames (sort_entries ps)
unfolding sort_entries AllNames
sort_entries-AllNames [] h = tt
sort_entries-AllNames (p ∷ ps) h =
    place-AllNames p (sort_entries ps) h.0 (sort_entries-AllNames ps h.1)

pub has_key-place :
    (p : Text × Text) (ps : Map Text Text) (k : Text)
    → Map.has_key k (place p ps) ≡ (text_beq p.0 k || Map.has_key k ps)
unfolding place Map.has_key
has_key-place p [] k = refl
has_key-place p (q ∷ ps) k = ground (arith, has_key-place p ps k)

pub place-UniqueKeys :
    (p : Text × Text) (ps : Map Text Text)
    → Map.has_key p.0 ps ≡ false
    → UniqueKeys ps
    → UniqueKeys (place p ps)
unfolding place Map.has_key
place-UniqueKeys p [] n u = (refl, tt)
place-UniqueKeys p (q ∷ ps) n u = elim (Bool-cases (text_leb (line_of p) (line_of q))) [
  | inl first ↦ rw first (n, u)
  | inr later ↦ rw later (
    ground (arith, has_key-place p ps q.0, text_beq_iff p.0 q.0, text_beq_iff q.0 p.0),
    place-UniqueKeys p ps (ground arith) u.1,
  )
]

pub lookup-place :
    (p : Text × Text) (ps : Map Text Text) (k : Text)
    → Map.has_key p.0 ps ≡ false
    → Map.lookup k (place p ps) ≡ (if text_beq p.0 k then some p.1 else Map.lookup k ps)
unfolding place Map.has_key Map.lookup
lookup-place p [] k n = refl
lookup-place p (q ∷ ps) k n =
    ground
      (arith, lookup-place p ps k, text_beq_iff p.0 k, text_beq_iff q.0 k, text_beq_iff q.0 p.0)
