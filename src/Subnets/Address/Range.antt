-- ===== src/Subnets/Address/Range.antt =====
-- Networks as ranges of addresses.
use native.Mathlib.Nat.{one-le-pow, div-add-mod', mod-lt, add-mul-div_right, div-eq_of_lt}
use garden_linux.Common.{
  lt-or-ge, inl, inr, none, some, ℕ, ◌+◌, ◌-◌, ◌*◌, ◌/◌, ◌^◌, ◌≤◌, ◌<◌, ◌≡◌, ◌↔◌, ◌⊎◌, refl, ap,
  true, false, arith,
}
use garden_linux.Subnets.Address.{
  IpNet, size, next, contains, overlaps, equals, max, network_ip, gateway_ip, broadcast_ip, masked,
}

pub size-pos : (n : IpNet) → 0 < size n
unfolding size
size-pos n = one-le-pow (32 - n.ones) 2 (omega arith)

pub size_30 : (n : IpNet) → n.ones ≡ 30 → size n ≡ 4
unfolding size
size_30 n e = rw e

-- A network whose address has no host bits, and that ends by the last address.
pub record IsNet (n : IpNet) : Type 0 where
  pub aligned : n.ip / size n * size n ≡ n.ip
  pub fits : n.ip + size n ≤ 2 ^ 32

-- The carry over the bytes is an addition of one.
pub next_lem : (ip : ℕ) → ip + 1 < 2 ^ 32 → next ip ≡ some (ip + 1)
unfolding next
next_lem ip h = ground arith

pub next_max : next (2 ^ 32 - 1) ≡ none
unfolding next
next_max = refl

block_lt : (a x d : ℕ) → 0 < d → a / d * d ≡ a → a / d ≡ x / d → (a ≤ x) × (x < a + d)
block_lt a x d h al e =
    let e' = ap (λ (t : ℕ). t * d) e in
    (omega (arith, div-add-mod' x d, e'), omega (arith, div-add-mod' x d, mod-lt x h, e'))

block_eq : (a x d : ℕ) → 0 < d → a / d * d ≡ a → a ≤ x → x < a + d → a / d ≡ x / d
block_eq a x d h al lo hi =
    let inside : x - a < d = omega arith in
    let whole : (x - a) + a / d * d ≡ x = omega arith in
    omega
      (arith, add-mul-div_right (x - a) (a / d) h, div-eq_of_lt inside, ap (λ (t : ℕ). t / d) whole)

-- A network contains exactly the addresses of its range.
pub contains_iff :
    (n : IpNet) (ip : ℕ) → IsNet n → (contains n ip ≡ true) ↔ ((n.ip ≤ ip) × (ip < n.ip + size n))
unfolding contains
contains_iff n ip v = (
  λ e. block_lt n.ip ip (size n) (size-pos n) v.aligned (ground arith),
  λ h. ground (arith, block_eq n.ip ip (size n) (size-pos n) v.aligned h.0 h.1),
)

-- Two networks share no address.
abbrev pub Apart : IpNet → IpNet → Type 0
Apart a b = (a.ip + size a ≤ b.ip) ⊎ (b.ip + size b ≤ a.ip)

-- `overlaps` tells whether two networks share an address.
pub overlaps-Apart : (a b : IpNet) → IsNet a → IsNet b → (overlaps a b ≡ false) ↔ Apart a b
unfolding overlaps
overlaps-Apart a b va vb =
    ground (arith, contains_iff a b.ip va, contains_iff b a.ip vb, size-pos a, size-pos b)

pub max_lem : (n : IpNet) → IsNet n → max n ≡ n.ip + size n - 1
unfolding max
max_lem n v = omega (arith, v.aligned, size-pos n)

pub masked_lem : (n : IpNet) → IsNet n → masked n ≡ n
unfolding masked
masked_lem n v = ground (arith, v.aligned)

pub equals_iff : (a b : IpNet) → (equals a b ≡ true) ↔ (a ≡ b)
unfolding equals
equals_iff a b = ground arith

pub network_ip_lem : (n : IpNet) → network_ip n ≡ n.ip
unfolding network_ip
network_ip_lem n = refl

pub broadcast_ip_lem : (n : IpNet) → IsNet n → broadcast_ip n ≡ n.ip + size n - 1
unfolding broadcast_ip
broadcast_ip_lem n v = max_lem n v

pub gateway_ip_lem : (n : IpNet) (g : ℕ) → IsNet n → gateway_ip n ≡ some g → g ≡ n.ip + 1
unfolding gateway_ip
gateway_ip_lem n g v e = elim (lt-or-ge (n.ip + 1) (2 ^ 32)) [
  | inl room ↦ ground (arith, next_lem n.ip)
  | inr last ↦
      let top : n.ip ≡ 2 ^ 32 - 1 = omega (arith, v.fits, size-pos n) in
      let stuck : next n.ip ≡ none = rw top next_max in absurd (cc)
]
