-- ===== src/Names/Distinct.antt =====
-- When two names are equal.
use native.Mathlib.Nat.{
  pow-suc, mul-add-div_right, mod-lt, div-eq_of_lt, div-add-mod, mul_comm, add-mul-mod_self_right,
  mod-eq_of_lt, div-div-eq-div-mul,
}
use garden_linux.Common.{
  ℕ, zero, suc, ◌+◌, ◌-◌, ◌*◌, ◌/◌, ◌%◌, ◌^◌, ◌≤◌, ◌<◌, ◌≡◌, ◌↔◌, refl, sym, ap, ◌∙◌, [], ◌∷◌, ◌++◌,
  length, length-append, Text, arith,
}
use garden_linux.Names.{digit, random_part, container_id, rand_part_len, bridge_name}

-- The digits of `n` to base 32, `k` of them.
digits : ℕ → ℕ → Text
digits zero n = []
digits (suc k) n = digit (n / 32 ^ k % 32) ∷ digits k n

digit-injective : (a b : ℕ) → a < 32 → b < 32 → digit a ≡ digit b → a ≡ b
unfolding digit
digit-injective a b h k e = ground arith

mod_split : (n d : ℕ) → 0 < d → n % (32 * d) ≡ n / d % 32 * d + n % d
mod_split n d h =
    ap (λ t. t % (32 * d)) whole
    ∙ add-mul-mod_self_right (n / d % 32 * d + n % d) (n / d / 32) (32 * d)
    ∙ mod-eq_of_lt small
  where
    parts : n / d ≡ n / d / 32 * 32 + n / d % 32
    parts = omega arith

    whole : n ≡ (n / d % 32 * d + n % d) + n / d / 32 * (32 * d)
    whole = omega (arith, div-add-mod n d, ap (λ (t : ℕ). t * d) parts)

    small : n / d % 32 * d + n % d < 32 * d
    small = grind arith

pow_pos : (k : ℕ) → 0 < 32 ^ k
pow_pos zero = omega arith
pow_pos (suc k) = omega (arith, pow_pos k, pow-suc 32 k)

digits-injective : (k m n : ℕ) → digits k m ≡ digits k n → m % 32 ^ k ≡ n % 32 ^ k
unfolding digits
digits-injective zero m n e = omega arith
digits-injective (suc k) m n e =
    let heads : m / 32 ^ k % 32 ≡ n / 32 ^ k % 32 =
      digit-injective _ _ (omega arith) (omega arith) (cc) in
    let rest = digits-injective k m n (cc) in
    rw (
      pow-suc 32 k,
      mul_comm (32 ^ k) 32,
      mod_split m (32 ^ k) (pow_pos k),
      mod_split n (32 ^ k) (pow_pos k),
      heads,
      rest,
    )

quotient_unique : (d a b r t : ℕ) → r < d → t < d → a * d + r ≡ b * d + t → (a ≡ b) × (r ≡ t)
quotient_unique d a b r t hr ht e =
    let q : a ≡ b = omega (
      arith,
      mul-add-div_right {m = d} (omega arith) a r,
      mul-add-div_right {m = d} (omega arith) b t,
      div-eq_of_lt hr,
      div-eq_of_lt ht,
      ap (λ (s : ℕ). s / d) e,
    ) in
    (q, omega (arith, ap (λ (s : ℕ). s * d) q))

digits-mod : (k m n : ℕ) → m % 32 ^ k ≡ n % 32 ^ k → digits k m ≡ digits k n
unfolding digits
digits-mod zero m n e = refl
digits-mod (suc k) m n e =
    let split : m % (32 * 32 ^ k) ≡ n % (32 * 32 ^ k) =
      rw (pow-suc 32 k, mul_comm (32 ^ k) 32) at e in
    let (heads, rest) =
      quotient_unique (32 ^ k) (m / 32 ^ k % 32) (n / 32 ^ k % 32) (m % 32 ^ k) (n % 32 ^ k)
        (mod-lt m (pow_pos k)) (mod-lt n (pow_pos k))
        (sym (mod_split m (32 ^ k) (pow_pos k)) ∙ split ∙ mod_split n (32 ^ k) (pow_pos k)) in
    rw heads (ap (λ t. digit (n / 32 ^ k % 32) ∷ t) (digits-mod k m n rest))

length-random_part : (rounds i num : ℕ) → length (random_part rounds i num) ≡ rounds
unfolding random_part
length-random_part zero i num = refl
length-random_part (suc rounds) i num = ap suc (length-random_part rounds (i + 1) num)

container_id-digits : (n : ℕ) → container_id n ≡ digits 11 n
unfolding container_id digits
container_id-digits n = refl

-- Two container ids are equal exactly if their counters agree modulo 2 ^ 55, so no id comes twice
-- within 2 ^ 55 containers; an id is 11 characters long.
pub container_id-injective :
    (m n : ℕ)
    → ((container_id m ≡ container_id n) ↔ (m % 2 ^ 55 ≡ n % 2 ^ 55))
      × (length (container_id m) ≡ 11)
unfolding container_id
container_id-injective m n = (
  (
    λ e. digits-injective 11 m n (rw (container_id-digits m, container_id-digits n) at e),
    λ e. rw (container_id-digits m, container_id-digits n) (digits-mod 11 m n e),
  ),
  length-random_part 11 0 m,
)

rand_part_len_lem : (prefix : Text) → length prefix ≤ 15 → rand_part_len prefix ≡ 15 - length prefix
unfolding rand_part_len
rand_part_len_lem prefix h = omega arith

five_prefix :
    (prefix : Text) (n : ℕ)
    → length prefix ≡ 5
    → bridge_name prefix n ≡ prefix ++ digits 10 (n / 32)
unfolding bridge_name digits
five_prefix prefix n h =
    rw (rand_part_len_lem prefix (omega arith), h) (ap (λ t. prefix ++ t) (simp div-div-eq-div-mul))

four_prefix :
    (prefix : Text) (n : ℕ) → length prefix ≡ 4 → bridge_name prefix n ≡ prefix ++ digits 11 n
unfolding bridge_name digits
four_prefix prefix n h = rw (rand_part_len_lem prefix (omega arith), h)

three_prefix :
    (prefix : Text) (n : ℕ)
    → length prefix ≡ 3
    → bridge_name prefix n ≡ prefix ++ (digits 11 n ++ b'0' ∷ [])
unfolding bridge_name digits digit
three_prefix prefix n h = rw (rand_part_len_lem prefix (omega arith), h)

-- Bridge names are 15 characters long, the longest name that a Linux interface can have (for a
-- prefix of at most 15 characters).
pub length-bridge_name :
    (prefix : Text) (num : ℕ) → length prefix ≤ 15 → length (bridge_name prefix num) ≡ 15
unfolding bridge_name
length-bridge_name prefix num h = omega (
  arith,
  length-append prefix (random_part (rand_part_len prefix) 0 num),
  length-random_part (rand_part_len prefix) 0 num,
  rand_part_len_lem prefix h,
)

prefix_cancel : (p s t : Text) → p ++ s ≡ p ++ t → s ≡ t
prefix_cancel [] s t e = e
prefix_cancel (c ∷ p) s t e = prefix_cancel p s t (cc)

-- With a prefix of 4 characters (a tag of one), two names are equal exactly if their counters
-- agree modulo 2 ^ 55.
pub bridge_name-injective :
    (prefix : Text) (m n : ℕ)
    → length prefix ≡ 4
    → (bridge_name prefix m ≡ bridge_name prefix n) ↔ (m % 2 ^ 55 ≡ n % 2 ^ 55)
bridge_name-injective prefix m n h = (
  λ e.
      digits-injective 11 m n
        (prefix_cancel prefix _ _ (sym (four_prefix prefix m h) ∙ e ∙ four_prefix prefix n h)),
  λ e.
      rw (four_prefix prefix m h, four_prefix prefix n h)
        (ap (λ t. prefix ++ t) (digits-mod 11 m n e)),
)

-- With a prefix of 5 characters (a tag of two, the longest that is allowed), a name does not
-- depend on the last five bits of the counter: a generator that starts at a multiple of 32
-- delivers the same name 32 times in a row.
pub bridge_name_repeats :
    (prefix : Text) (num step : ℕ)
    → length prefix ≡ 5
    → num % 32 ≡ 0
    → step < 32
    → bridge_name prefix (num + step) ≡ bridge_name prefix num
bridge_name_repeats prefix num step h e k =
    let same : (num + step) / 32 ≡ num / 32 = omega arith in
    rw (five_prefix prefix (num + step) h, five_prefix prefix num h, same)
