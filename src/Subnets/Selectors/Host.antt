-- ===== src/Subnets/Selectors/Host.antt =====
-- What the IP selectors return.
use garden_linux.Common.{
  ℕ, zero, suc, ◌+◌, ◌-◌, ◌^◌, ◌≤◌, ◌<◌, ◌≡◌, ◌≢◌, inl, inr, refl, true, false, List, none,
  if◌then◌else◌, ok, err, panic, ◌>>=◌, arith, lt-or-ge, eq-or-ne,
}
use garden_linux.Subnets.Address.{IpNet, size, next, or_panic}
use garden_linux.Subnets.Address.Range.{IsNet, size-pos, contains_iff, next_lem, next_max}
use garden_linux.Subnets.Errors.{SubnetError, insufficient_ips}
use garden_linux.Subnets.Selectors.{
  IpSelector, static_ip, dynamic_ip, ip_exists, scan_ips, select_ip,
}

module _ (subnet : IpNet) (existing : List ℕ) (v : IsNet subnet) where
  scan_step :
      (fuel ip : ℕ)
      → subnet.ip ≤ ip
      → ip < subnet.ip + size subnet
      → scan_ips (suc fuel) subnet existing ip ≡ (
          if ip_exists ip existing
          then (do after ← or_panic (next ip); scan_ips fuel subnet existing after)
          else ok ip)
  unfolding scan_ips
  scan_step fuel ip lo hi = ground (arith, contains_iff subnet ip v)

  scan_end :
      (fuel ip : ℕ)
      → subnet.ip + size subnet ≤ ip
      → scan_ips (suc fuel) subnet existing ip ≡ err insufficient_ips
  unfolding scan_ips
  scan_end fuel ip h = ground (arith, contains_iff subnet ip v)

  -- The first address from `ip` on that does not exist, in the subnet.
  scan_sound :
      (fuel ip r : ℕ)
      → subnet.ip ≤ ip
      → ip ≤ subnet.ip + size subnet
      → scan_ips fuel subnet existing ip ≡ ok r
      → (ip ≤ r) × (r < subnet.ip + size subnet) × (ip_exists r existing ≡ false)
  scan_sound zero ip r lo hi e = absurd (unfold scan_ips in cc)
  scan_sound (suc fuel) ip r lo hi e = elim (lt-or-ge ip (subnet.ip + size subnet)) [
    | inl inside ↦ elim (lt-or-ge (ip + 1) (2 ^ 32)) [
      | inl room ↦
          ground (arith, next_lem ip, scan_step fuel ip lo inside, scan_sound fuel (ip + 1) r)
      | inr last ↦
          let top : ip ≡ 2 ^ 32 - 1 = omega (arith, v.fits) in
          let stuck : next ip ≡ none = rw top next_max in
          ground (arith, stuck, scan_step fuel ip lo inside)
    ]
    | inr over ↦ absurd (ground (arith, scan_end fuel ip over))
  ]

  -- In a subnet that ends before the last address, the walk fails only if every address exists.
  scan_complete :
      (fuel ip : ℕ) (x : SubnetError)
      → subnet.ip + size subnet < 2 ^ 32
      → subnet.ip ≤ ip
      → scan_ips fuel subnet existing ip ≡ err x
      → (b : ℕ) → ip ≤ b
      → b < subnet.ip + size subnet
      → ip_exists b existing ≡ true
  scan_complete zero ip x below lo e b le lt = absurd (unfold scan_ips in cc)
  scan_complete (suc fuel) ip x below lo e b le lt = ground (
    arith,
    next_lem ip,
    scan_step fuel ip lo (omega arith),
    λ (p : scan_ips fuel subnet existing (ip + 1) ≡ err x) (q : ip + 1 ≤ b).
        scan_complete fuel (ip + 1) x below (omega arith) p b q lt,
    eq-or-ne ip b,
  )

  scan_total :
      (fuel ip : ℕ)
      → subnet.ip + size subnet < 2 ^ 32
      → subnet.ip ≤ ip
      → subnet.ip + size subnet < ip + fuel
      → ip ≤ subnet.ip + size subnet
      → scan_ips fuel subnet existing ip ≢ panic
  scan_total zero ip below lo f hi e = omega arith
  scan_total (suc fuel) ip below lo f hi e = elim (lt-or-ge ip (subnet.ip + size subnet)) [
    | inl inside ↦
        ground (arith, next_lem ip, scan_step fuel ip lo inside, scan_total fuel (ip + 1))
    | inr over ↦ ground (arith, scan_end fuel ip over)
  ]

  -- At the end of the address space the walk has nowhere to go.
  scan_stuck :
      (fuel ip : ℕ)
      → subnet.ip + size subnet ≡ 2 ^ 32
      → subnet.ip ≤ ip
      → ip < 2 ^ 32
      → ((b : ℕ) → ip ≤ b → b < 2 ^ 32 → ip_exists b existing ≡ true)
      → scan_ips fuel subnet existing ip ≡ panic
  scan_stuck zero ip end lo hi full = unfold scan_ips in refl
  scan_stuck (suc fuel) ip end lo hi full = elim (lt-or-ge (ip + 1) (2 ^ 32)) [
    | inl room ↦
        let rest =
          scan_stuck fuel (ip + 1) end (omega arith) room (λ b le lt. full b (omega arith) lt) in
        ground
          (arith, next_lem ip, scan_step fuel ip lo (omega arith), full ip (omega arith) hi, rest)
    | inr last ↦
        let top : ip ≡ 2 ^ 32 - 1 = omega arith in
        let stuck : next ip ≡ none = rw top next_max in
        ground (arith, stuck, scan_step fuel ip lo (omega arith), full ip (omega arith) hi)
  ]

-- In a masked subnet, whatever selector is used, the address that is returned lies in the subnet
-- and is not among the existing ones.
pub select_ip-ok :
    (i : IpSelector) (subnet : IpNet) (existing : List ℕ) (ip : ℕ)
    → IsNet subnet
    → select_ip i subnet existing ≡ ok ip
    → (subnet.ip ≤ ip) × (ip < subnet.ip + size subnet) × (ip_exists ip existing ≡ false)
unfolding select_ip
select_ip-ok (static_ip a) subnet existing ip v e = ground (arith, contains_iff subnet ip v)
select_ip-ok dynamic_ip subnet existing ip v e =
    scan_sound subnet existing v (suc (size subnet)) subnet.ip ip (omega arith) (omega arith) e

-- In a masked subnet that ends before the last address the dynamic selector never panics, and it
-- fails only when every address of the subnet exists.
pub select_ip-dynamic :
    (subnet : IpNet) (existing : List ℕ)
    → IsNet subnet
    → subnet.ip + size subnet < 2 ^ 32
    → (select_ip dynamic_ip subnet existing ≢ panic)
      × ((x : SubnetError)
          → select_ip dynamic_ip subnet existing ≡ err x
          → (b : ℕ) → subnet.ip ≤ b
          → b < subnet.ip + size subnet
          → ip_exists b existing ≡ true)
unfolding select_ip
select_ip-dynamic subnet existing v below = (
  scan_total subnet existing v (suc (size subnet)) subnet.ip below (omega arith) (omega arith)
      (omega arith),
  λ x e b. scan_complete subnet existing v (suc (size subnet)) subnet.ip x below (omega arith) e b,
)

-- In a masked subnet whose last address is 255.255.255.255, the dynamic selector panics instead of
-- returning `ErrInsufficientIPs` when every address of the subnet exists.
pub select_ip_panics :
    (subnet : IpNet) (existing : List ℕ)
    → IsNet subnet
    → subnet.ip + size subnet ≡ 2 ^ 32
    → ((b : ℕ) → subnet.ip ≤ b → b < 2 ^ 32 → ip_exists b existing ≡ true)
    → select_ip dynamic_ip subnet existing ≡ panic
unfolding select_ip
select_ip_panics subnet existing v end full =
    scan_stuck subnet existing v (suc (size subnet)) subnet.ip end (omega arith)
      (omega (arith, size-pos subnet)) full
