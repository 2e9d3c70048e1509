-- ===== src/Subnets/Selectors.antt =====
-- network/subnets/selectors.go. The loops of the dynamic selectors run on fuel, the number of
-- addresses of the range that they walk; running out would be a panic of the model.
pub mod Subnet
pub mod Host
use garden_linux.Common.{
  ℕ, zero, suc, ◌/◌, ◌+◌, Bool, true, false, not, ◌&&◌, ◌||◌, List, [], ◌∷◌, none, some, ◌==◌,
  if◌then◌else◌, Outcome, ok, err, panic, ◌>>=◌,
}
use garden_linux.Subnets.Address.{
  IpNet, size, next, or_panic, contains, overlaps, equals, gateway_ip, broadcast_ip, net_beq,
}
use garden_linux.Subnets.Errors.{
  SubnetError, overlaps_dynamic, overlaps_existing, insufficient_subnets, insufficient_ips,
  invalid_ip, ip_already_acquired, ip_equals_gateway, ip_equals_broadcast,
}

pub data SubnetSelector : Type 0 where
  static_subnet : IpNet → SubnetSelector
  dynamic_subnet : SubnetSelector

pub data IpSelector : Type 0 where
  static_ip : ℕ → IpSelector
  dynamic_ip : IpSelector

-- `for _, e := range existing` of StaticSubnetSelector.
unfoldable pub check_existing : IpNet → List IpNet → Outcome SubnetError IpNet
check_existing s [] = ok s
check_existing s (e ∷ es) =
    if overlaps s e && not (equals s e) then err (overlaps_existing s e) else check_existing s es

-- `exists[subnet.String()]`.
unfoldable pub subnet_exists : IpNet → List IpNet → Bool
subnet_exists n [] = false
subnet_exists n (e ∷ es) = net_beq e n || subnet_exists n es

-- `exists[i.String()]`.
unfoldable pub ip_exists : ℕ → List ℕ → Bool
ip_exists ip [] = false
ip_exists ip (e ∷ es) = e == ip || ip_exists ip es

abbrev pub slash_30 : ℕ → IpNet
slash_30 ip = record { ip = ip; ones = 30 }

-- `for ip := min; dynamic.Contains(ip); ip = next(ip)` of DynamicSubnetSelector.
unfoldable pub scan_subnets : ℕ → IpNet → List IpNet → ℕ → Outcome SubnetError IpNet
scan_subnets zero dynamic existing ip = panic
scan_subnets (suc fuel) dynamic existing ip = elim (contains dynamic ip) [
  | false ↦ err insufficient_subnets
  | true ↦ do
    one ← or_panic (next ip)
    two ← or_panic (next one)
    last ← or_panic (next two)
    elim (contains dynamic last && not (subnet_exists (slash_30 ip) existing)) [
      | true ↦ ok (slash_30 ip)
      | false ↦ do after ← or_panic (next last); scan_subnets fuel dynamic existing after
    ]
]

unfoldable pub select_subnet : SubnetSelector → IpNet → List IpNet → Outcome SubnetError IpNet
unfolding check_existing scan_subnets subnet_exists
select_subnet (static_subnet s) dynamic existing =
    if overlaps dynamic s then err (overlaps_dynamic s dynamic) else check_existing s existing
select_subnet dynamic_subnet dynamic existing =
    scan_subnets (suc (size dynamic)) dynamic existing dynamic.ip

-- `for i := subnet.IP; subnet.Contains(i); i = next(i)` of DynamicIPSelector.
unfoldable pub scan_ips : ℕ → IpNet → List ℕ → ℕ → Outcome SubnetError ℕ
scan_ips zero subnet existing ip = panic
scan_ips (suc fuel) subnet existing ip = elim (contains subnet ip) [
  | false ↦ err insufficient_ips
  | true ↦ elim (ip_exists ip existing) [
    | false ↦ ok ip
    | true ↦ do after ← or_panic (next ip); scan_ips fuel subnet existing after
  ]
]

unfoldable pub select_ip : IpSelector → IpNet → List ℕ → Outcome SubnetError ℕ
unfolding ip_exists scan_ips
select_ip (static_ip ip) subnet existing =
    if broadcast_ip subnet == ip then err ip_equals_broadcast else do
      gateway ← or_panic (gateway_ip subnet)
      if gateway == ip
          then err ip_equals_gateway
          else if not (contains subnet ip)
          then err invalid_ip
          else if ip_exists ip existing
          then err ip_already_acquired
          else ok ip
select_ip dynamic_ip subnet existing = scan_ips (suc (size subnet)) subnet existing subnet.ip
