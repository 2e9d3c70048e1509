-- ===== src/Environment.antt =====
-- process/env.go: environments as lists of NAME=value lines and as maps.
pub mod Lines
pub mod RoundTrip
mod Tests
use garden_linux.Common.{
  ℕ, zero, suc, ◌+◌, ◌-◌, ◌*◌, ◌/◌, ◌%◌, ◌^◌, ◌≤◌, ◌<◌, ◌≡◌, ◌≢◌, ◌↔◌, ◌⊎◌, inl, inr, refl, sym, ap,
  ◌∙◌, Bool, true, false, not, ◌&&◌, ◌||◌, List, [], ◌∷◌, ◌++◌, map, append-nil, append_assoc,
  Option, none, some, ◌==◌, ==_iff, if◌then◌else◌, leb, ltb, length, length-append, take, drop, set,
  count, count-append, All, Outcome, ok, err, panic, ◌>>=◌, >>=-eq-ok, arith, Bool-cases,
  Option-cases, List-cases, lt-or-ge, eq-or-ne, Text, codes, text_beq, text_beq_iff, text_eq,
  nat_eq, Eq, snoc-ne-nil, Outcome-cases, range, replicate,
}
use garden_linux.Common.Map
use garden_linux.Common.Map.{Map}

pub data EnvError : Type 0 where
  empty_string : EnvError
  invalid_format empty_key : Text → EnvError

-- `strings.SplitN(str, "=", 2)`, which has two parts if the text has a `=` (61).
unfoldable pub split_n : Text → Option (Text × Text)
split_n [] = none
split_n (c ∷ s) =
    let rest = split_n s in
    if c == 61 then some ([], s) else (elim rest [ none ↦ none | some (k, v) ↦ some (c ∷ k, v) ])

-- The loop of `NewEnv`, on the entries so far.
unfoldable pub add_lines : List Text → Map Text Text → Outcome EnvError (Map Text Text)
add_lines [] env = ok env
add_lines (str ∷ array) env = if text_beq str [] then err empty_string else elim (split_n str) [
  | none ↦ err (invalid_format str)
  | some (key, value) ↦ elim (text_beq key []) [
    | true ↦ err (empty_key str)
    | false ↦ add_lines array (Map.insert key value env)
  ]
]

unfoldable pub new_env : List Text → Outcome EnvError (Map Text Text)
unfolding add_lines
new_env array = add_lines array []

-- Both loops of `Merge`: each entry is written to the new map.
unfoldable pub write_all : Map Text Text → Map Text Text → Map Text Text
write_all [] merged = merged
write_all ((key, value) ∷ env) merged = write_all env (Map.insert key value merged)

unfoldable pub merge : Map Text Text → Map Text Text → Map Text Text
unfolding write_all
merge env other = write_all other (write_all env [])

-- Go's order on strings, by bytes.
unfoldable pub text_leb : Text → Text → Bool
text_leb [] t = true
text_leb (a ∷ s) [] = false
text_leb (a ∷ s) (b ∷ t) = ltb a b || (a == b && text_leb s t)

-- `sort.Strings`.
unfoldable pub insert_sorted : Text → List Text → List Text
insert_sorted x [] = x ∷ []
insert_sorted x (y ∷ ys) = if text_leb x y then x ∷ y ∷ ys else y ∷ insert_sorted x ys

unfoldable pub sort_strings : List Text → List Text
unfolding insert_sorted
sort_strings [] = []
sort_strings (x ∷ xs) = insert_sorted x (sort_strings xs)

-- `fmt.Sprintf("%s=%s", key, value)`.
unfoldable pub line_of : Text × Text → Text
line_of (key, value) = key ++ 61 ∷ value

unfoldable pub array : Map Text Text → List Text
unfolding line_of sort_strings
array env = sort_strings (map line_of env)
