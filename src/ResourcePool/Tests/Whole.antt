-- ===== src/ResourcePool/Tests/Whole.antt =====
-- The theorems on a restored and on a released container at concrete ones.
use garden_linux.Common.{
  ℕ, ◌≡◌, ◌≢◌, ◌⊎◌, refl, true, List, [], ◌∷◌, none, some, Outcome, ok, err, arith, Text, codes,
  text_eq, nat_eq,
}
use garden_linux.PortPool.{PortPool, PortError, port_taken}
use garden_linux.PortPool as Ports
use garden_linux.Subnets.Pool.{Network, Pool}
use garden_linux.Subnets.Pool as Subnets
use garden_linux.Subnets.Pool.Separate.{total}
use garden_linux.Bridges.{rereserve}
use garden_linux.Common.Map
use garden_linux.Common.Map.{Map}
use garden_linux.ResourcePool.{Resources, Pools, PoolError, version_failed}
use garden_linux.ResourcePool.Snapshots.{
  ContainerSnapshot, LinuxContainerSpec, restore_pools, restore,
}
use garden_linux.ResourcePool.Teardown.{System, release}
use garden_linux.Subnets.Address.{net_beq, net_eq}
use garden_linux.Bridges.{new, rereserve}
use garden_linux.ResourcePool.Released.{IsConsistent, release-IsConsistent}
use garden_linux.ResourcePool.Snapshots.{restored_spec}
use garden_linux.ResourcePool.Tests.{
  block_a, host_a, free_pools, restored_run, restored_pools, restored_pools-IsConsistent,
  saved_resources, given,
}

-- A snapshot without limits, processes and rules.
abbrev saved_container : ContainerSnapshot (Unit {0}) (Unit {0}) (Unit {0})
saved_container = record {
  id = codes "c1";
  handle = codes "web";
  root_fs_path = codes "/rootfs";
  grace_time = 30;
  state = codes "active";
  events = [];
  limits = tt;
  resources = saved_resources (60001 ∷ []) (codes "w1b-x");
  processes = [];
  default_process_signaller = true;
  net_ins = [];
  net_outs = [];
  properties = [];
  env_vars = codes "A=b" ∷ [];
}

abbrev saved_spec : LinuxContainerSpec (Unit {0}) (Unit {0}) (Unit {0}) ℕ
saved_spec = restored_spec (codes "/depot") 9 saved_container 3

restore_run :
    restore (codes "/depot") 9 (λ id. ok 3) (some saved_container) free_pools
    ≡ (restored_pools, ok saved_spec)
unfolding restore
restore_run = rw restored_run refl

abbrev without_version :
    Pools × Outcome PoolError (LinuxContainerSpec (Unit {0}) (Unit {0}) (Unit {0}) ℕ)
without_version =
    restore (codes "/depot") 9 (λ id. err version_failed) (some saved_container) free_pools

-- A system whose depot names the bridge, where nothing fails.
abbrev calm : System
calm = record {
  devices = record {
    Kernel = List Text;
    create = λ b ip s k. (b ∷ k, none);
    destroy = λ b k. (k, none);
    list = λ k. ok k;
  };
  read_bridge_name = λ id k. some (codes "w1b-x");
  read_rootfs_provider = λ id k. none;
  container_teardown = λ id k. (k, none);
  run_destroy = λ id k. (k, none);
  destroy_rootfs = λ id k. (k, none);
  filter_teardown = λ id k. k;
}

abbrev container_share : Resources
container_share = record given { bridge = codes "w1b-x"; ports = 60001 ∷ [] }

abbrev after_release : Pools × List Text × Outcome PoolError (Unit {0})
after_release = release calm (codes "c1") container_share restored_pools []

release-IsConsistent_example :
    ((after_release.2 ≡ ok tt)
      × IsConsistent after_release.0 (60000 ∷ [])
      × (total host_a after_release.0.subnets.allocated ≡ 0))
    ⊎ ((after_release.2 ≢ ok tt)
        × IsConsistent after_release.0 (60001 ∷ 60000 ∷ [])
        × (after_release.0.ports ≡ restored_pools.ports)
        × (after_release.0.subnets ≡ restored_pools.subnets))
unfolding restore_pools Subnets.remove Subnets.get Map.lookup Map.insert Subnets.ips_of rereserve
    Subnets.has_ip new Ports.remove net_beq
release-IsConsistent_example =
    release-IsConsistent calm (codes "c1") container_share restored_pools [] (60000 ∷ []) block_a
      host_a restored_pools-IsConsistent refl (omega arith)
