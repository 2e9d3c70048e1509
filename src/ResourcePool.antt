-- ===== src/ResourcePool.antt =====
-- resource_pool/resource_pool.go, and the resources of linux_backend/resources.go: how a container
-- gets its share of the pools, gives it back, and takes it back from a snapshot.
pub mod Snapshots
pub mod Teardown
pub mod Creation
pub mod Acquiring
pub mod Acquired
pub mod Pruning
pub mod Kept
pub mod Held
pub mod Undo
pub mod Released
pub mod Restored
pub mod Specs
mod Tests
use garden_linux.Common.{
  ℕ, zero, suc, ◌+◌, ◌-◌, ◌*◌, ◌/◌, ◌%◌, ◌^◌, ◌≤◌, ◌<◌, ◌≡◌, ◌≢◌, ◌↔◌, ◌⊎◌, inl, inr, refl, sym, ap,
  ◌∙◌, Bool, true, false, not, ◌&&◌, ◌||◌, List, [], ◌∷◌, ◌++◌, map, append-nil, append_assoc,
  Option, none, some, ◌==◌, ==_iff, if◌then◌else◌, leb, ltb, length, length-append, take, drop, set,
  count, count-append, All, Outcome, ok, err, panic, ◌>>=◌, >>=-eq-ok, arith, Bool-cases,
  Option-cases, List-cases, lt-or-ge, eq-or-ne, Text, codes, text_beq, text_beq_iff, text_eq,
  nat_eq, Eq, snoc-ne-nil, Outcome-cases, range, replicate,
}
use garden_linux.Subnets.Address.{IpNet, network_ip}
use garden_linux.Subnets.Errors.{SubnetError}
use garden_linux.Subnets.Selectors.{
  SubnetSelector, IpSelector, static_subnet, dynamic_subnet, static_ip, dynamic_ip,
}
use garden_linux.Subnets.Pool.{Network, Pool}
use garden_linux.Subnets.Pool as Subnets
use garden_linux.PortPool.{PortPool, PortError}
use garden_linux.PortPool as Ports
use garden_linux.Bridges.{Devices, Manager, BridgeError, rereserve}
use garden_linux.Bridges as Bridges

-- `linux_backend.Resources`; a nil network is `none`.
pub record Resources : Type 0 where
  pub root_uid : ℕ
  pub network : Option Network
  pub bridge : Text
  pub ports : List ℕ
  pub external_ip : ℕ

-- The pools that containers share.
pub record Pools : Type 0 where
  pub ports : PortPool
  pub subnets : Pool
  pub bridges : Manager

pub data PoolError : Type 0 where
  invalid_network_spec decode_failed version_failed system_failed : PoolError
  subnet_failed : SubnetError → PoolError
  port_failed : PortError → PoolError
  bridge_failed : BridgeError → PoolError

-- `suffixIfNeeded`: 47 is a slash.
has_slash : Text → Bool
has_slash [] = false
has_slash (c ∷ s) = c == 47 || has_slash s

unfoldable pub suffix_if_needed : Text → Text
unfolding has_slash
suffix_if_needed spec = if not (has_slash spec) then spec ++ codes "/30" else spec

-- `net.ParseCIDR` is a parameter: an address and its network, or an error.
unfoldable pub parse_network_spec :
    (Text → Option (ℕ × IpNet)) → Text → Outcome PoolError (SubnetSelector × IpSelector)
unfolding suffix_if_needed
parse_network_spec parse_cidr spec =
    if text_beq spec []
    then ok (dynamic_subnet, dynamic_ip)
    else elim (parse_cidr (suffix_if_needed spec)) [
      | none ↦ err invalid_network_spec
      | some (ip, ipn) ↦
          ok (static_subnet ipn, if ip == network_ip ipn then dynamic_ip else static_ip ip)
    ]

-- `p.mappingList.Map(0)` is a parameter.
unfoldable pub acquire_uid : ℕ → Bool → ℕ
acquire_uid mapped_root privileged = if not privileged then mapped_root else 0

unfoldable pub release_ports : List ℕ → PortPool → PortPool
release_ports [] p = p
release_ports (port ∷ ports) p = release_ports ports (Ports.release p port)

-- The error of `Release` is dropped, and then the pool is as it was.
unfoldable pub release_network : Option Network → Pool → Pool
release_network none p = p
release_network (some n) p = elim (Subnets.release p n) [ ok q ↦ q | err e ↦ p | panic ↦ p ]

unfoldable pub release_pool_resources : Resources → Pools → Pools
unfolding release_ports release_network
release_pool_resources r p = record p {
  ports = release_ports r.ports p.ports;
  subnets = release_network r.network p.subnets;
}

-- `resources.Network, err = p.subnetPool.Acquire(…)` and what follows; a failed `Acquire` returns a
-- nil network, so that there is nothing to release.
unfoldable pub acquire_network :
    Resources → SubnetSelector → IpSelector → Pools → Pools × Outcome PoolError Resources
acquire_network r subnet ip p = elim (Subnets.acquire p.subnets subnet ip) [
  | ok (network, subnets) ↦
      (record p { subnets = subnets }, ok (record r { network = some network }))
  | err e ↦ (release_pool_resources r p, err (subnet_failed e))
  | panic ↦ (p, panic)
]

unfoldable pub acquire_pool_resources :
    (Text → Option (ℕ × IpNet)) → ℕ → ℕ → Text → Bool → Pools → Pools × Outcome PoolError Resources
unfolding parse_network_spec acquire_uid acquire_network
acquire_pool_resources parse_cidr mapped_root external_ip spec privileged p =
    let resources : Resources = record {
      root_uid = acquire_uid mapped_root privileged;
      network = none;
      bridge = [];
      ports = [];
      external_ip = external_ip;
    } in
    elim (parse_network_spec parse_cidr spec) [
      | ok (subnet, ip) ↦ acquire_network resources subnet ip p
      | err e ↦ (p, err e)
      | panic ↦ (p, panic)
    ]
