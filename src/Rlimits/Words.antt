-- ===== src/Rlimits/Words.antt =====
-- How the entries of limits are joined, split and read.
use garden_linux.Common.{
  ℕ, ◌+◌, ◌-◌, ◌*◌, ◌^◌, ◌<◌, ◌≡◌, refl, sym, ap, ◌∙◌, true, false, List, [], ◌∷◌, ◌++◌, append-nil,
  append_assoc, Option, none, some, count, count-append, All, arith, Text, text_beq, text_eq,
  nat_eq,
}
use garden_linux.Common.Map
use garden_linux.Common.Map.{Map}
use garden_linux.Common.Decimal.{
  decimal, parse_uint, parse_uint-decimal, count-decimal, read_digits,
}
use garden_linux.Environment.Lines.{split_n-line}
use garden_linux.Rlimits.{entry, entries, join, split, scan_digits, sscanf, decode_each}

split-word : (w : Text) → count 44 w ≡ 0 → split w ≡ w ∷ []
unfolding split
split-word [] h = refl
split-word (c ∷ w) h = ground (arith, split-word w)

split-comma : (w s : Text) → count 44 w ≡ 0 → split (w ++ 44 ∷ s) ≡ w ∷ split s
unfolding split
split-comma [] s h = refl
split-comma (c ∷ w) s h = ground (arith, split-comma w s)

-- Words without commas come back from their line.
pub split-join :
    (w : Text) (ws : List Text)
    → All (λ (v : Text). count 44 v ≡ 0) (w ∷ ws)
    → split (join (w ∷ ws)) ≡ w ∷ ws
unfolding join
split-join w [] h = split-word w h.0
split-join w (v ∷ ws) h = split-comma w (join (v ∷ ws)) h.0 ∙ ap (λ l. w ∷ l) (split-join v ws h.1)

scan_digits-read_digits :
    (value n : ℕ) (s : Text) → read_digits value s ≡ some n → scan_digits value s ≡ some n
unfolding scan_digits read_digits
scan_digits-read_digits value n [] e = e
scan_digits-read_digits value n (c ∷ s) e =
    ground (arith, scan_digits-read_digits (value * 10 + (c - 48)) n s)

sscanf-parse_uint : (s : Text) (n : ℕ) → parse_uint s ≡ some n → sscanf s ≡ some n
unfolding sscanf scan_digits parse_uint read_digits
sscanf-parse_uint [] n e = absurd (cc)
sscanf-parse_uint (c ∷ s) n e = ground (arith, scan_digits-read_digits (c - 48) n s)

pub sscanf-decimal : (n : ℕ) → n < 2 ^ 64 → sscanf (decimal n) ≡ some n
sscanf-decimal n h = sscanf-parse_uint (decimal n) n (parse_uint-decimal n h)

-- The entries of the limits that are set.
pub words : List (Text × Option ℕ) → List Text
words [] = []
words ((name, none) ∷ fs) = words fs
words ((name, some n) ∷ fs) = (name ++ 61 ∷ decimal n) ∷ words fs

pub entries-words : (fs : List (Text × Option ℕ)) (ls : List Text) → entries fs ls ≡ ls ++ words fs
unfolding entries entry words
entries-words [] ls = sym (append-nil ls)
entries-words ((name, none) ∷ fs) ls = entries-words fs ls
entries-words ((name, some n) ∷ fs) ls =
    entries-words fs (ls ++ (name ++ 61 ∷ decimal n) ∷ [])
    ∙ append_assoc ls ((name ++ 61 ∷ decimal n) ∷ []) (words fs)

-- A name without comma or equals sign, and a number that a uint64 holds.
unfoldable pub IsEntry : Text × Option ℕ → Type 0
IsEntry f = (count 44 f.0 ≡ 0) × (count 61 f.0 ≡ 0) × ((n : ℕ) → f.1 ≡ some n → n < 2 ^ 64)

pub words-commas :
    (fs : List (Text × Option ℕ)) → All IsEntry fs → All (λ (v : Text). count 44 v ≡ 0) (words fs)
unfolding words IsEntry
words-commas [] h = tt
words-commas ((name, none) ∷ fs) h = words-commas fs h.1
words-commas ((name, some n) ∷ fs) h = (
  ground (arith, count-append 44 name (61 ∷ decimal n), count-decimal 44 n, h.0.0),
  words-commas fs h.1,
)

-- What the entries set in a map.
pub insert_all : List (Text × Option ℕ) → Map Text ℕ → Map Text ℕ
insert_all [] env = env
insert_all ((name, none) ∷ fs) env = insert_all fs env
insert_all ((name, some n) ∷ fs) env = insert_all fs (Map.insert name n env)

pub decode_each-words :
    (fs : List (Text × Option ℕ)) (env : Map Text ℕ)
    → All IsEntry fs
    → decode_each (words fs) env ≡ insert_all fs env
unfolding words decode_each insert_all IsEntry
decode_each-words [] env h = refl
decode_each-words ((name, none) ∷ fs) env h = decode_each-words fs env h.1
decode_each-words ((name, some n) ∷ fs) env h =
    rw (decode_each, words, split_n-line name (decimal n) h.0.1, sscanf-decimal n (h.0.2 n refl))
      (decode_each-words fs (Map.insert name n env) h.1)

-- The limit that stands last under a name.
unfoldable pub assigned : Text → List (Text × Option ℕ) → Option ℕ → Option ℕ
assigned j [] old = old
assigned j ((name, limit) ∷ fs) old =
    assigned j fs
      (elim (text_beq name j) [ false ↦ old | true ↦ elim limit [ none ↦ old | some n ↦ some n ] ])

pub lookup-insert_all :
    (j : Text) (fs : List (Text × Option ℕ)) (env : Map Text ℕ)
    → Map.lookup j (insert_all fs env) ≡ assigned j fs (Map.lookup j env)
unfolding insert_all assigned
lookup-insert_all j [] env = refl
lookup-insert_all j ((name, none) ∷ fs) env =
    lookup-insert_all j fs env ∙ ap (assigned j fs) (ground arith)
lookup-insert_all j ((name, some n) ∷ fs) env =
    lookup-insert_all j fs (Map.insert name n env)
    ∙ ap (assigned j fs) (ground (arith, Map.lookup-insert name j n env))
