-- ===== src/Subnets/Selectors/Subnet.antt =====
-- What the subnet selectors return.
use garden_linux.Common.{
  ℕ, zero, suc, ◌+◌, ◌*◌, ◌%◌, ◌^◌, ◌≤◌, ◌<◌, ◌≡◌, ◌≢◌, ◌⊎◌, inl, inr, true, false, List, [], ◌∷◌,
  if◌then◌else◌, All, ok, err, panic, arith, lt-or-ge, eq-or-ne,
}
use garden_linux.Subnets.Address.{IpNet, size, net_beq_iff}
use garden_linux.Subnets.Address.Range.{
  IsNet, Apart, contains_iff, overlaps-Apart, equals_iff, next_lem,
}
use garden_linux.Subnets.Errors.{SubnetError, insufficient_subnets}
use garden_linux.Subnets.Selectors.{
  dynamic_subnet, check_existing, subnet_exists, slash_30, scan_subnets, select_subnet,
  static_subnet,
}

-- A network of four addresses inside the range, its block aligned in it.
pub record OnGrid (dynamic n : IpNet) : Type 0 where
  pub short : n.ones ≡ 30
  pub above : dynamic.ip ≤ n.ip
  pub below : n.ip + 4 ≤ dynamic.ip + size dynamic

-- A range that holds whole blocks of four addresses, before the end of the address space.
pub record IsRange (dynamic : IpNet) : Type 0 where
  pub net : IsNet dynamic
  pub blocks : size dynamic % 4 ≡ 0
  pub block_start : dynamic.ip % 4 ≡ 0
  pub below_max : dynamic.ip + size dynamic < 2 ^ 32

-- The static selector accepts a network only if each existing one is equal to it or apart.
pub check_existing-ok :
    (s r : IpNet) (es : List IpNet)
    → IsNet s
    → All IsNet es
    → check_existing s es ≡ ok r
    → (r ≡ s) × All (λ e. (e ≡ s) ⊎ Apart s e) es
unfolding check_existing
check_existing-ok s r [] v vs h = (cc, tt)
check_existing-ok s r (e ∷ es) v vs h =
    let rest = check_existing-ok s r es v vs.1 (ground arith) in
    (rest.0, (ground (arith, overlaps-Apart s e v vs.0, equals_iff s e), rest.1))

pub subnet_exists-All :
    (n : IpNet) (es : List IpNet) → subnet_exists n es ≡ false → All (λ e. e ≢ n) es
unfolding subnet_exists
subnet_exists-All n [] h = tt
subnet_exists-All n (e ∷ es) h =
    (ground (arith, net_beq_iff e n), subnet_exists-All n es (ground arith))

scan_error :
    (dynamic : IpNet) (existing : List IpNet) (fuel ip : ℕ) (x : SubnetError)
    → scan_subnets fuel dynamic existing ip ≡ err x
    → x ≡ insufficient_subnets
unfolding scan_subnets
scan_error dynamic existing zero ip x e = cc
scan_error dynamic existing (suc fuel) ip x e = grind (arith, scan_error dynamic existing fuel)

-- One block of the dynamic selector's walk.
module _ (dynamic : IpNet) (existing : List IpNet) (v : IsRange dynamic) where
  scan_step :
      (fuel ip : ℕ)
      → ip % 4 ≡ 0
      → dynamic.ip ≤ ip
      → ip < dynamic.ip + size dynamic
      → scan_subnets (suc fuel) dynamic existing ip ≡ (
          if subnet_exists (slash_30 ip) existing
          then scan_subnets fuel dynamic existing (ip + 4)
          else ok (slash_30 ip))
  unfolding scan_subnets
  scan_step fuel ip al lo hi =
      let four : ip + 1 + 1 + 1 + 1 ≡ ip + 4 = omega arith in
      let whole : ip + 4 ≤ dynamic.ip + size dynamic = omega (arith, v.blocks, v.block_start) in
      ground (
        arith,
        v.below_max,
        contains_iff dynamic ip v.net,
        contains_iff dynamic (ip + 1 + 1 + 1) v.net,
        next_lem ip,
        next_lem (ip + 1),
        next_lem (ip + 1 + 1),
        next_lem (ip + 1 + 1 + 1),
      )

  scan_end :
      (fuel ip : ℕ)
      → dynamic.ip + size dynamic ≤ ip
      → scan_subnets (suc fuel) dynamic existing ip ≡ err insufficient_subnets
  unfolding scan_subnets
  scan_end fuel ip h = ground (arith, contains_iff dynamic ip v.net)

  -- A block that the walk returns lies in the range, on its grid, and does not exist yet.
  scan_sound :
      (fuel ip : ℕ) (r : IpNet)
      → ip % 4 ≡ 0
      → dynamic.ip ≤ ip
      → scan_subnets fuel dynamic existing ip ≡ ok r
      → (r.ip % 4 ≡ 0) × OnGrid dynamic r × (subnet_exists r existing ≡ false)
  scan_sound zero ip r al lo e = absurd (unfold scan_subnets in cc)
  scan_sound (suc fuel) ip r al lo e = elim (lt-or-ge ip (dynamic.ip + size dynamic)) [
    | inl hi ↦
        let whole : ip + 4 ≤ dynamic.ip + size dynamic = omega (arith, v.blocks, v.block_start) in
        ground (arith, scan_step fuel ip al lo hi, scan_sound fuel (ip + 4) r)
    | inr over ↦ absurd (ground (arith, scan_end fuel ip over))
  ]

  -- The walk fails only if every block from `ip` on exists.
  scan_complete :
      (fuel ip : ℕ) (x : SubnetError)
      → ip % 4 ≡ 0
      → dynamic.ip ≤ ip
      → scan_subnets fuel dynamic existing ip ≡ err x
      → (b : ℕ) → ip ≤ b
      → b < dynamic.ip + size dynamic
      → b % 4 ≡ 0
      → subnet_exists (slash_30 b) existing ≡ true
  scan_complete zero ip x al lo e b le lt alb = absurd (unfold scan_subnets in cc)
  scan_complete (suc fuel) ip x al lo e b le lt alb = ground (
    arith,
    scan_step fuel ip al lo (omega arith),
    λ (p : scan_subnets fuel dynamic existing (ip + 4) ≡ err x) (q : ip + 4 ≤ b).
        scan_complete fuel (ip + 4) x (omega arith) (omega arith) p b q lt alb,
    eq-or-ne ip b,
  )

  -- The fuel suffices, and the walk ends before the last address.
  scan_total :
      (fuel ip : ℕ)
      → ip % 4 ≡ 0
      → dynamic.ip ≤ ip
      → ip ≤ dynamic.ip + size dynamic
      → dynamic.ip + size dynamic + 4 ≤ ip + 4 * fuel
      → scan_subnets fuel dynamic existing ip ≢ panic
  scan_total zero ip al lo hi f e = omega arith
  scan_total (suc fuel) ip al lo hi f e = elim (lt-or-ge ip (dynamic.ip + size dynamic)) [
    | inl inside ↦
        let whole : ip + 4 ≤ dynamic.ip + size dynamic = omega (arith, v.blocks, v.block_start) in
        ground (arith, scan_step fuel ip al lo inside, scan_total fuel (ip + 4))
    | inr over ↦ ground (arith, scan_end fuel ip over)
  ]

-- The blocks of a range are used up: each aligned block of four addresses exists.
abbrev pub IsUsedUp : IpNet → List IpNet → Type 0
IsUsedUp dynamic existing =
    (b : ℕ)
    → dynamic.ip ≤ b
    → b < dynamic.ip + size dynamic
    → b % 4 ≡ 0
    → subnet_exists (slash_30 b) existing ≡ true

-- The dynamic selector, for a range of whole blocks that ends before the last address: what it
-- returns is an aligned block of four addresses of the range that does not exist yet; it fails
-- only with `ErrInsufficientSubnets`, when every block of the range exists; and it never panics.
pub select_subnet-dynamic :
    (dynamic : IpNet) (existing : List IpNet)
    → IsRange dynamic
    → ((r : IpNet)
        → select_subnet dynamic_subnet dynamic existing ≡ ok r
        → (r.ip % 4 ≡ 0) × OnGrid dynamic r × (subnet_exists r existing ≡ false))
      × ((x : SubnetError)
          → select_subnet dynamic_subnet dynamic existing ≡ err x
          → (x ≡ insufficient_subnets) × IsUsedUp dynamic existing)
      × (select_subnet dynamic_subnet dynamic existing ≢ panic)
unfolding select_subnet
select_subnet-dynamic dynamic existing v = (
  λ r e.
      scan_sound dynamic existing v (suc (size dynamic)) dynamic.ip r v.block_start (omega arith) e,
  λ x e. (
    scan_error dynamic existing (suc (size dynamic)) dynamic.ip x e,
    scan_complete dynamic existing v (suc (size dynamic)) dynamic.ip x v.block_start (omega arith)
        e,
  ),
  scan_total dynamic existing v (suc (size dynamic)) dynamic.ip v.block_start (omega arith)
      (omega arith) (omega arith),
)

-- For masked networks, the static selector returns the network that it names, and only if that
-- shares no address with the dynamic range, and with no existing network but an equal one.
pub select_subnet-static :
    (s r dynamic : IpNet) (existing : List IpNet)
    → IsNet s
    → IsNet dynamic
    → All IsNet existing
    → select_subnet (static_subnet s) dynamic existing ≡ ok r
    → (r ≡ s) × Apart dynamic s × All (λ e. (e ≡ s) ⊎ Apart s e) existing
unfolding select_subnet
select_subnet-static s r dynamic existing vs vd ve h =
    let checked = check_existing-ok s r existing vs ve (ground arith) in
    (checked.0, ground (arith, overlaps-Apart dynamic s vd vs), checked.1)
