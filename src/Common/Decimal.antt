-- ===== src/Common/Decimal.antt =====
-- Numbers in decimal: `fmt.Sprintf("%d", n)` and `strconv.ParseUint(s, 10, 64)`.
use Prim.Native.Nat.{ℕ, zero, suc, ◌+◌, ◌-◌, ◌*◌, ◌/◌, ◌%◌, ◌^◌, ◌<◌}
use mathlib.Core.Path.{◌≡◌, refl, ◌∙◌}
use mathlib.Core.Logic.{◌⊎◌, inl, inr}
use mathlib.Core.Bool.{true, false, ◌&&◌}
use mathlib.Core.Option.{Option, none, some}
use mathlib.Core.List.{[], ◌∷◌}
use native.Mathlib.Omega.{arith}
use garden_linux.Common.Tests.{ltb, leb, lt-or-ge, Bool-cases}
use garden_linux.Common.Keys.{Text}
use garden_linux.Common.Lists.{count}

-- The digits of `n` before `acc`, by rounds left.
pub digits_onto : ℕ → ℕ → Text → Text
digits_onto zero n acc = acc
digits_onto (suc rounds) n acc = elim (ltb n 10) [
  | true ↦ (48 + n) ∷ acc
  | false ↦ digits_onto rounds (n / 10) ((48 + n % 10) ∷ acc)
]

-- A number has no more digits than its value and one.
unfoldable pub decimal : ℕ → Text
unfolding digits_onto
decimal n = digits_onto (suc n) n []

-- The value of digits after those that have been read; anything but a digit is an error, and so
-- is a value of 2 ^ 64 or more.
unfoldable pub read_digits : ℕ → Text → Option ℕ
read_digits value [] = some value
read_digits value (c ∷ s) = elim (leb 48 c && ltb c 58 && ltb (value * 10 + (c - 48)) (2 ^ 64)) [
  | true ↦ read_digits (value * 10 + (c - 48)) s
  | false ↦ none
]

unfoldable pub parse_uint : Text → Option ℕ
unfolding read_digits
parse_uint [] = none
parse_uint (c ∷ s) = read_digits 0 (c ∷ s)

-- What the digits of `n` add to what was read before `acc`.
read-digits_onto :
    (rounds n : ℕ) (acc : Text)
    → n < rounds
    → n < 2 ^ 64
    → read_digits 0 (digits_onto rounds n acc) ≡ read_digits n acc
unfolding digits_onto read_digits
read-digits_onto zero n acc h b = absurd (omega arith)
read-digits_onto (suc rounds) n acc h b = elim (lt-or-ge n 10) [
  | inl small ↦ ground arith
  | inr large ↦ ground (arith, read-digits_onto rounds (n / 10) ((48 + n % 10) ∷ acc))
]

digits_onto-cons :
    (rounds n c : ℕ) (s : Text) → (d : ℕ) × (t : Text) × (digits_onto rounds n (c ∷ s) ≡ d ∷ t)
unfolding digits_onto
digits_onto-cons zero n c s = (c, s, refl)
digits_onto-cons (suc rounds) n c s = elim (Bool-cases (ltb n 10)) [
  | inl small ↦ (48 + n, c ∷ s, ground arith)
  | inr large ↦
      let (d, t, e) = digits_onto-cons rounds (n / 10) (48 + n % 10) (c ∷ s) in
      (d, t, ground (arith, e))
]

decimal-cons : (n : ℕ) → (d : ℕ) × (t : Text) × (decimal n ≡ d ∷ t)
unfolding decimal digits_onto
decimal-cons n = elim (Bool-cases (ltb n 10)) [
  | inl small ↦ (48 + n, [], ground arith)
  | inr large ↦
      let (d, t, e) = digits_onto-cons n (n / 10) (48 + n % 10) [] in (d, t, ground (arith, e))
]

parse_uint-read_digits : (s : Text) (d : ℕ) (t : Text) → s ≡ d ∷ t → parse_uint s ≡ read_digits 0 s
unfolding parse_uint
parse_uint-read_digits s d t e = rw e refl

-- A number that a uint64 holds is read back from its digits.
pub parse_uint-decimal : (n : ℕ) → n < 2 ^ 64 → parse_uint (decimal n) ≡ some n
unfolding decimal read_digits
parse_uint-decimal n h =
    let (d, t, e) = decimal-cons n in
    parse_uint-read_digits (decimal n) d t e ∙ read-digits_onto (suc n) n [] (omega arith) h

count-digits_onto :
    (x rounds n : ℕ) (acc : Text)
    → (x < 48) ⊎ (57 < x)
    → count x (digits_onto rounds n acc) ≡ count x acc
unfolding digits_onto
count-digits_onto x zero n acc h = refl
count-digits_onto x (suc rounds) n acc h =
    ground (arith, count-digits_onto x rounds (n / 10) ((48 + n % 10) ∷ acc))

-- Only digits are printed.
pub count-decimal : (x n : ℕ) → (x < 48) ⊎ (57 < x) → count x (decimal n) ≡ 0
unfolding decimal
count-decimal x n h = count-digits_onto x (suc n) n [] h
