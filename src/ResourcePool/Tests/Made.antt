-- ===== src/ResourcePool/Tests/Made.antt =====
-- A container that is not made, for its files cannot be written.
use garden_linux.Common.{
  ℕ, ◌≡◌, refl, true, false, [], ◌∷◌, ◌++◌, none, some, ok, err, Text, codes, text_eq, nat_eq,
}
use garden_linux.Names.{bridge_name, generate}
use garden_linux.Subnets.Pool.{Network}
use garden_linux.Bridges.{Manager, new, owners_of}
use garden_linux.ResourcePool.Tests.{block_a, host_a}
use garden_linux.ResourcePool.Pruning.{Housekeeping, prune, prune_entries}
use garden_linux.ResourcePool.Kept.{prune-owns}
use garden_linux.ResourcePool.Teardown.{System, release_system_resources}
use garden_linux.Bridges.Kept.{owns, listed}
use garden_linux.Bridges as Bridges
use garden_linux.Common.Map
use garden_linux.Common.Map.{Map}
use garden_linux.Common.Map.{Map}
use garden_linux.Subnets.Address.{
  size, contains, gateway_ip, broadcast_ip, network_ip, next, net_eq,
}
use garden_linux.Subnets.Selectors.{select_subnet, select_ip}
use garden_linux.Subnets.Pool.{Network}
use garden_linux.Subnets.Pool as Subnets
use garden_linux.Bridges.{Manager, Devices, reserve, owners_of}
use garden_linux.ResourcePool.{
  system_failed, acquire_pool_resources, acquire_network, parse_network_spec,
}
use garden_linux.ResourcePool.Teardown.{System}
use garden_linux.ResourcePool.Creation.{
  Request, Settings, Creation, setup_rootfs, setup_bridge, setup_container_directories,
}
use garden_linux.ResourcePool.Acquiring.{acquire, acquire_system, acquire_system_resources}
use garden_linux.ResourcePool.Acquired.{SameShare, acquire_fails-SameShare}
use garden_linux.ResourcePool.Tests.{free_pools, free_subnets-IsValid, no_parser}

abbrev full_disk : System
full_disk = record {
  devices = record {
    Kernel = ℕ;
    create = λ name gateway subnet k. (k, none);
    destroy = λ name k. (k, none);
    list = λ k. ok [];
  };
  read_bridge_name = λ id k. none;
  read_rootfs_provider = λ id k. none;
  container_teardown = λ id k. (k, none);
  run_destroy = λ id k. (k, none);
  destroy_rootfs = λ id k. (k, none);
  filter_teardown = λ id k. k;
}

abbrev creation : Creation full_disk
creation = record {
  join_path = λ a b. a ++ b;
  show_ip = λ ip. [];
  show_net = λ n. [];
  parse_cidr = no_parser;
  parse_url = λ t. some t;
  make_directory = λ path k. (k, none);
  remove_directory = λ path k. k;
  create_rootfs = λ id url namespaced quota scope k. (k, ok (codes "/rootfs", []));
  write_file = λ path content k. (k, some (codes "no space"));
  run_create = λ path env k. (k, none);
  run_bash = λ line k. (k, none);
  mkdir_chown = λ path uid k. (k, none);
  setup_filter = λ id handle k. (k, none);
}

abbrev settings : Settings Text
settings = record {
  depot = codes "/depot";
  external_ip = 9;
  mapped_root = 5;
  mtu = 1500;
  path_variable = codes "/bin";
  version = codes "1.0.0";
}

abbrev show_version : Text → Text
show_version v = v

abbrev request : Request
request = record {
  handle = codes "web";
  grace_time = 0;
  root_fs_path = codes "/";
  bind_mounts = [];
  network = [];
  properties = [];
  env = [];
  privileged = false;
  byte_hard = 0;
  scope = 0;
}

not_made :
    (acquire creation settings show_version {Process = Unit {0}} {NetOut = Unit {0}} tt
      (codes "c1")
      request
      free_pools
      0).2
    ≡ err system_failed
unfolding acquire acquire_system acquire_system_resources setup_container_directories setup_rootfs
    setup_bridge reserve acquire_pool_resources acquire_network parse_network_spec no_parser
    Subnets.acquire select_subnet select_ip Subnets.subnets gateway_ip network_ip broadcast_ip size
    next contains Map.lookup Map.insert garden_linux.Environment.new_env garden_linux.Bridges.new
not_made = refl

acquire_fails-SameShare_example :
    SameShare free_pools
      (acquire creation settings show_version {Process = Unit {0}} {NetOut = Unit {0}} tt
        (codes "c1")
        request
        free_pools
        0).0
unfolding no_parser
acquire_fails-SameShare_example =
    acquire_fails-SameShare creation settings show_version (Unit {0}) (Unit {0}) (Unit {0}) tt
      (codes "c1") request free_pools 0 system_failed (λ t ip n e. absurd (cc)) free_subnets-IsValid
      not_made

abbrev subnet_a : Network
subnet_a = record { subnet = block_a; ip = some host_a }

abbrev reserved : Manager
reserved = (reserve full_disk.devices block_a (codes "c1") free_pools.bridges 0).0

reserve_run :
    reserve full_disk.devices block_a (codes "c1") free_pools.bridges 0
    ≡ (reserved, 0, ok (bridge_name (codes "w1b-") 7))
unfolding reserve generate new gateway_ip next network_ip size Map.lookup
reserve_run = refl

abbrev shared_disk : System
shared_disk = record full_disk { read_bridge_name = λ id k. some (codes "w1b-x") }

abbrev housekeeping : Housekeeping shared_disk
housekeeping = record {
  run_setup = λ depot path k. (k, none);
  setup_quota = λ k. (k, none);
  append_rule = λ n target k. (k, none);
  read_depot = λ k. ok (codes "c1" ∷ codes "tmp" ∷ codes "c2" ∷ []);
}

abbrev two_owners : Manager
two_owners = record reserved { owners = (codes "w1b-x", codes "c1" ∷ codes "c2" ∷ []) ∷ [] }

pruned_owners :
    (prune housekeeping (codes "c2" ∷ []) two_owners 0).0.owners
    ≡ (codes "w1b-x", codes "c2" ∷ []) ∷ []
unfolding prune prune_entries release_system_resources Bridges.release Map.lookup Map.insert
pruned_owners = refl

prune-owns_example :
    owns (prune housekeeping (codes "c2" ∷ []) two_owners 0).0 (codes "w1b-x") (codes "c2") ≡ true
unfolding listed owns owners_of Map.lookup
prune-owns_example =
    prune-owns shared_disk housekeeping (codes "c2" ∷ []) (codes "w1b-x") (codes "c2") two_owners 0
      refl refl
