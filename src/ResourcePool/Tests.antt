-- ===== src/ResourcePool/Tests.antt =====
-- Runs of the resource pool, and the theorems at concrete pools.
mod Whole
mod Made
use garden_linux.Common.{
  ℕ, ◌+◌, ◌*◌, ◌^◌, ◌<◌, ◌≡◌, ◌≢◌, ◌⊎◌, inl, refl, true, false, List, [], ◌∷◌, ◌++◌, Option, none,
  some, ◌==◌, if◌then◌else◌, count, Outcome, ok, err, arith, Text, codes, text_eq, nat_eq,
}
use garden_linux.PortPool.{PortPool, PortError, port_taken}
use garden_linux.PortPool as Ports
use garden_linux.Subnets.Address.{IpNet, network_ip}
use garden_linux.Subnets.Pool.{Network, Pool}
use garden_linux.Subnets.Pool as Subnets
use garden_linux.Bridges.{empty_name}
use garden_linux.Subnets.Pool.Separate.{total}
use garden_linux.Subnets.Pool.Selected.{IsValid}
use garden_linux.Bridges.{rereserve, owners_of}
use garden_linux.Common.Map
use garden_linux.Common.Map.{Map}
use garden_linux.ResourcePool.{
  Resources, Pools, PoolError, version_failed, port_failed, bridge_failed, release_pool_resources,
  acquire_pool_resources, parse_network_spec, acquire_network, invalid_network_spec,
}
use garden_linux.ResourcePool.Snapshots.{
  ResourcesSnapshot, ContainerSnapshot, LinuxContainerSpec, remove_ports, restore_pools, restore,
}
use garden_linux.ResourcePool.Teardown.{System, release}
use garden_linux.Subnets.Address.{size, contains, gateway_ip, broadcast_ip, next, net_beq, net_eq}
use garden_linux.Subnets.Selectors.{select_subnet, select_ip}
use garden_linux.Bridges.{new, rereserve, owners_of}
use garden_linux.Bridges.Invariant.{new-IsValid}
use garden_linux.ResourcePool.Undo.{release-acquire_pool_resources, acquire_pool_resources_fails}
use garden_linux.ResourcePool.Released.{IsConsistent, release-IsConsistent}
use garden_linux.ResourcePool.Restored.{
  IsRestorable, IsOnlyBridge, restore_pools-IsConsistent, restore_pools_refused,
  restore_pools_taken,
}
use garden_linux.ResourcePool.Specs.{restore-ok}
use garden_linux.ResourcePool.Snapshots.{restored_spec}

-- 10.254.0.0/29, with one container that holds the port 60000 and no network.
abbrev dynamic_29 : IpNet
dynamic_29 = record { ip = 10 * 2 ^ 24 + 254 * 2 ^ 16; ones = 29 }

abbrev block_a : IpNet
block_a = record { ip = dynamic_29.ip; ones = 30 }

abbrev host_a : ℕ
host_a = dynamic_29.ip + 2

abbrev free_pools : Pools
free_pools = record {
  ports = record {
    start = 60000;
    size = 3;
    pool = 60001 ∷ 60002 ∷ [];
    state = record { offset = 0 };
  };
  subnets = record { allocated = []; dynamic_range = dynamic_29 };
  bridges = new (codes "w1b-") 7;
}

no_parser : Text → Option (ℕ × IpNet)
no_parser t = none

free_subnets-IsValid : IsValid free_pools.subnets
unfolding size
free_subnets-IsValid = record {
  range = record {
    net = record { aligned = omega arith; fits = omega arith };
    blocks = omega arith;
    block_start = omega arith;
    below_max = omega arith;
  };
  entries = tt;
  separate = tt;
}

free_pools-IsConsistent : IsConsistent free_pools (60000 ∷ [])
free_pools-IsConsistent = record {
  ports = record { bounded = omega arith; once = λ x. ground arith };
  subnets = free_subnets-IsValid;
  bridges = new-IsValid (codes "w1b-") 7;
}

abbrev acquired : Pools × Outcome PoolError Resources
acquired = acquire_pool_resources no_parser 5 9 [] false free_pools

abbrev given : Resources
given = record {
  root_uid = 5;
  network = some (record { subnet = block_a; ip = some host_a });
  bridge = [];
  ports = [];
  external_ip = 9;
}

abbrev with_network : Pools
with_network = record free_pools {
  subnets = record { allocated = (block_a, host_a ∷ []) ∷ []; dynamic_range = dynamic_29 };
}

acquired_run : acquire_pool_resources no_parser 5 9 [] false free_pools ≡ (with_network, ok given)
unfolding acquire_pool_resources acquire_network parse_network_spec no_parser Subnets.acquire
    select_subnet select_ip Subnets.subnets gateway_ip network_ip broadcast_ip size next contains
    Map.lookup Map.insert
acquired_run = refl

refused_run :
    acquire_pool_resources no_parser 5 9 (codes "10.1.1.0") false free_pools
    ≡ (free_pools, err invalid_network_spec)
unfolding acquire_pool_resources parse_network_spec no_parser
refused_run = refl

abbrev saved_resources : List ℕ → Text → ResourcesSnapshot
saved_resources ports bridge = record {
  user_uid = 0;
  root_uid = 5;
  network = some (record { subnet = block_a; ip = some host_a });
  bridge = bridge;
  ports = ports;
}

abbrev restored_pools : Pools
restored_pools =
    (restore_pools (codes "c1") (saved_resources (60001 ∷ []) (codes "w1b-x")) free_pools).0

restored_run :
    restore_pools (codes "c1") (saved_resources (60001 ∷ []) (codes "w1b-x")) free_pools
    ≡ (restored_pools, ok tt)
unfolding restore_pools rereserve remove_ports Ports.remove Ports.find_index Subnets.remove
    Subnets.has_ip Subnets.get Subnets.ips_of Map.lookup Map.insert new
restored_run = refl

block_a-IsRestorable : IsRestorable free_pools.subnets block_a host_a
unfolding size
block_a-IsRestorable = record {
  net = record { aligned = omega arith; fits = omega arith };
  place = inl (omega arith);
  others = tt;
  usable = refl;
}

no_other_bridge : IsOnlyBridge free_pools.bridges block_a (codes "w1b-x")
unfolding new Map.lookup
no_other_bridge = inl refl

restored_pools-IsConsistent : IsConsistent restored_pools (60001 ∷ 60000 ∷ [])
restored_pools-IsConsistent =
    (restore_pools-IsConsistent (codes "c1") (saved_resources (60001 ∷ []) (codes "w1b-x"))
      free_pools restored_pools block_a host_a (60000 ∷ []) free_pools-IsConsistent refl
      block_a-IsRestorable no_other_bridge restored_run).0

restore_pools-IsConsistent_example :
    IsConsistent restored_pools (60001 ∷ 60000 ∷ [])
    × ((x : ℕ)
        → total x restored_pools.subnets.allocated ≡ total x [] + (if host_a == x then 1 else 0))
    × (Map.lookup (codes "w1b-x") restored_pools.bridges.bridge_subnet ≡ some block_a)
    × (owners_of (Map.lookup (codes "w1b-x") restored_pools.bridges.owners)
        ≡ owners_of (Map.lookup (codes "w1b-x") free_pools.bridges.owners) ++ codes "c1" ∷ [])
restore_pools-IsConsistent_example =
    restore_pools-IsConsistent (codes "c1") (saved_resources (60001 ∷ []) (codes "w1b-x"))
      free_pools restored_pools block_a host_a (60000 ∷ []) free_pools-IsConsistent refl
      block_a-IsRestorable no_other_bridge restored_run

unnamed_bridge : restore_pools (codes "c1") (saved_resources (60001 ∷ []) []) free_pools ≡ (
  (restore_pools (codes "c1") (saved_resources (60001 ∷ []) []) free_pools).0,
  err (bridge_failed empty_name),
)
unfolding restore_pools rereserve Subnets.remove Subnets.has_ip Subnets.get Map.lookup
unnamed_bridge = refl

abbrev after_refusal : Pools
after_refusal = (restore_pools (codes "c1") (saved_resources (60001 ∷ []) []) free_pools).0

-- The port 60000 is held by another container.
abbrev taken_port : ResourcesSnapshot
taken_port = saved_resources (60000 ∷ 60001 ∷ []) (codes "w1b-x")

restore_pools_taken_example :
    ((restore_pools (codes "c1") taken_port free_pools).1 ≡ err (port_failed (port_taken 60000)))
    × (0 < count 60000 (restore_pools (codes "c1") taken_port free_pools).0.ports.pool)
    × (owners_of (
          Map.lookup
            (codes "w1b-x")
            (restore_pools (codes "c1") taken_port free_pools).0.bridges.owners)
        ≡ owners_of (Map.lookup (codes "w1b-x") free_pools.bridges.owners) ++ codes "c1" ∷ [])
unfolding Subnets.get Map.lookup rereserve new Subnets.ips_of
restore_pools_taken_example =
    restore_pools_taken (codes "c1") taken_port free_pools block_a host_a 60000 (60001 ∷ [])
      (60000 ∷ []) free_pools-IsConsistent refl refl (omega arith) refl refl
