-- ===== src/Subnets/Pool.antt =====
-- The pool of network/subnets/subnets.go: which addresses are allocated in which subnets. The
-- map's keys are the texts of the subnets, and equal texts are equal networks. Each method holds
-- the pool's lock, so that it is one step; logging is left out.
pub mod Entries
pub mod Separate
pub mod Selected
pub mod Acquire
pub mod Release
pub mod Remove
use garden_linux.Common.{
  ℕ, zero, suc, ◌+◌, ◌-◌, ◌/◌, ◌^◌, Bool, true, false, List, [], ◌∷◌, ◌++◌, Option, none, some,
  ◌==◌, if◌then◌else◌, length, take, set, Outcome, ok, err, panic, ◌>>=◌,
}
use garden_linux.Common.Map
use garden_linux.Common.Map.{Map}
use garden_linux.Subnets.Address.{
  IpNet, net_eq, size, or_panic, network_ip, gateway_ip, broadcast_ip, masked,
}
use garden_linux.Subnets.Errors.{
  SubnetError, released_unallocated_subnet, overlaps_existing_subnet, ip_cannot_be_nil,
}
use garden_linux.Subnets.Selectors.{SubnetSelector, IpSelector, select_subnet, select_ip}

-- `linux_backend.Network`: a nil IP is `none`.
pub record Network : Type 0 where
  pub subnet : IpNet
  pub ip : Option ℕ

pub record Pool : Type 0 where
  pub allocated : Map IpNet (List ℕ)
  pub dynamic_range : IpNet

unfoldable pub new_subnets : IpNet → Pool
new_subnets n = record { allocated = []; dynamic_range = n }

-- Reading a key that is missing gives the nil slice.
unfoldable pub ips_of : Option (List ℕ) → List ℕ
ips_of none = []
ips_of (some ips) = ips

unfoldable pub get : Map IpNet (List ℕ) → IpNet → List ℕ
unfolding ips_of
get m n = ips_of (Map.lookup n m)

-- The keys whose lists are not empty, read back by `net.ParseCIDR`.
unfoldable pub subnets : Map IpNet (List ℕ) → List IpNet
subnets [] = []
subnets ((k, []) ∷ m) = subnets m
subnets ((k, ip ∷ ips) ∷ m) = masked k ∷ subnets m

unfoldable pub acquire : Pool → SubnetSelector → IpSelector → Outcome SubnetError (Network × Pool)
unfolding get
acquire p sn i = do
  subnet ← select_subnet sn p.dynamic_range (subnets p.allocated)
  let ips = get p.allocated subnet
  gateway ← or_panic (gateway_ip subnet)
  ip ← select_ip i subnet (ips ++ network_ip subnet ∷ gateway ∷ broadcast_ip subnet ∷ [])
  ok (
    record { subnet = subnet; ip = some ip },
    record p { allocated = Map.insert subnet (ips ++ ip ∷ []) p.allocated },
  )

-- `existing.Equal(network.IP)` for some entry.
unfoldable pub has_ip : ℕ → List ℕ → Bool
has_ip ip [] = false
has_ip ip (e ∷ es) = if e == ip then true else has_ip ip es

unfoldable pub remove : Pool → Network → Outcome SubnetError Pool
unfolding has_ip get
remove p network = elim network.ip [
  | none ↦ err ip_cannot_be_nil
  | some ip ↦
      if has_ip ip (get p.allocated network.subnet)
      then err overlaps_existing_subnet
      else ok (record p {
        allocated =
            Map.insert network.subnet (get p.allocated network.subnet ++ ip ∷ []) p.allocated;
      })
]

-- `-1, false` is `none`. A nil address equals no entry.
unfoldable pub index_of : List ℕ → ℕ → Option ℕ
index_of [] w = none
index_of (v ∷ a) w =
    if v == w then some 0 else (elim (index_of a w) [ none ↦ none | some i ↦ some (suc i) ])

unfoldable pub get_or_zero : List ℕ → ℕ → ℕ
get_or_zero [] i = 0
get_or_zero (x ∷ xs) zero = x
get_or_zero (x ∷ xs) (suc i) = get_or_zero xs i

-- The last entry takes the place of the one at `i`, for an index in range; the flag tells
-- whether the slice is now empty.
unfoldable pub remove_ip_at_index : List ℕ → ℕ → List ℕ × Bool
unfolding get_or_zero
remove_ip_at_index ips i =
    let l = length ips in (take (l - 1) (set ips i (get_or_zero ips (l - 1))), l == 1)

unfoldable pub release : Pool → Network → Outcome SubnetError Pool
unfolding index_of remove_ip_at_index get
release p network = elim network.ip [
  | none ↦ err released_unallocated_subnet
  | some w ↦ elim (index_of (get p.allocated network.subnet) w) [
    | none ↦ err released_unallocated_subnet
    | some i ↦
        let (reduced, empty) = remove_ip_at_index (get p.allocated network.subnet) i in
        ok (record p {
          allocated =
              if empty
              then Map.delete network.subnet p.allocated
              else Map.insert network.subnet reduced p.allocated;
        })
  ]
]

-- `int(math.Pow(2, float64(total-masked)) / 4)`, exact for an IPv4 mask.
unfoldable pub capacity : Pool → ℕ
capacity p = size p.dynamic_range / 4
