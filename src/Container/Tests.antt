-- ===== src/Container/Tests.antt =====
-- A container on a small host, and its theorems there.
mod Saved
use garden_linux.Common.{
  ℕ, ◌+◌, ◌%◌, ◌^◌, ◌<◌, ◌≡◌, ◌↔◌, refl, Bool, true, false, List, [], ◌∷◌, ◌++◌, none, some, ◌==◌,
  All, ok, err, arith, Text, codes, text_beq_iff, text_eq, nat_eq,
}
use garden_linux.Container.Metrics.{
  parse_memory_stat, parse_cpu_stat, words_after, read_fields, field_of, toward_limit, is_space,
  reversed,
}
use garden_linux.Container.Usage.{parse_memory_stat-toward_limit}
use garden_linux.Common.Map
use garden_linux.Common.Map.{Map, UniqueKeys}
use garden_linux.Common.Decimal.{parse_uint}
use garden_linux.PortPool.{PortPool, PortError}
use garden_linux.PortPool as Ports
use garden_linux.PortPool.Ownership.{IsShared}
use garden_linux.Subnets.Address.{IpNet}
use garden_linux.ResourcePool.Snapshots.{restored_spec}
use garden_linux.Container.{
  ActiveProcess, Host, Spec, LinuxContainer, active, stopped, set_grace_time, new_linux_container,
  set_state, register_event, stop,
}
use garden_linux.Container.Mappings.{net_in, map_port, net_out}
use garden_linux.Container.Properties.{property, set_property, has_properties}
use garden_linux.Container.Limiting.{
  limit_memory, limit_cpu, on_oom, current_cpu_limits, current_memory_limits,
}
use garden_linux.Container.Processes.{next_process_id, restore_process_id, process_signaller}
use garden_linux.Container.Snapshots.{
  Snapshot, snapshot, process_snapshots, restore_container, restore_net_ins, restore_net_outs,
  restore_processes, register_events,
}
use garden_linux.Container.Calls.{Call, runs_out, stops, maps, lets_out, sets, limits_memory, calls}
use garden_linux.Container.Lifecycle.{Keeps, calls-Keeps}
use garden_linux.Container.Limited.{limits-current, restore_processes-next_process_id}
use garden_linux.Container.Resumed.{restore_container-snapshot}
use garden_linux.Container.Properties.{has_properties_iff}
use garden_linux.PortPool.Ownership.{IsShared}
use garden_linux.Container.Processes.{next_process_id, restore_process_id}
use garden_linux.Container.Snapshots.{restore_processes}
use garden_linux.Container.{link, stopped, active}
use garden_linux.Container.Calls.{maps}
use garden_linux.ResourcePool.Snapshots.{restored_spec}
use garden_linux.Container.Snapshots.{
  restore_container, restore_limited, restore_rest, restore_net_ins, restore_net_outs,
  register_events, snapshot, Snapshot, process_snapshots,
}
use garden_linux.Container.Resumed.{restore_container-snapshot}
use garden_linux.Common.Decimal.{parse_uint, read_digits}
use garden_linux.Container.Mappings.{net_in, map_port, net_out}
use garden_linux.Container.Processes.{process_signaller}
use garden_linux.Container.{set_state, register_event}

-- Its state is the content of the cgroup files; every command succeeds.
abbrev host : Host
host = record {
  Kernel = Map Text Text;
  Disk = ℕ;
  Bandwidth = ℕ;
  NetOut = ℕ;
  Version = Bool;
  path_variable = codes "/bin";
  is_missing = λ v. v;
  run = λ c k. (k, none);
  container_setup = λ id bridge ip subnet k. (k, none);
  filter_net_out = λ r k. (k, none);
  cgroup_set = λ group file value k. (Map.insert file value k, none);
  cgroup_get =
      λ group file k. elim (Map.lookup file k) [ none ↦ err (codes "no file") | some v ↦ ok v ];
  zero_disk = 0;
  is_zero_disk = λ d. d == 0;
  zero_bandwidth = 0;
  is_zero_bandwidth = λ b. b == 0;
  quota_get = λ path k. ok 0;
  quota_set = λ path d k. (k, none);
  bandwidth_set = λ b k. (k, none);
  watch = λ k. (k, none);
  unwatch = λ k. k;
  active_processes = λ k. codes "7" ∷ [];
  tracker_restore = λ id g k. k;
  tracker_run = λ id c tty g k. (k, ok id);
}

abbrev network : IpNet
network = record { ip = 167772160; ones = 30 }

abbrev spec : Spec host
spec = record {
  id = codes "abc";
  container_path = codes "/depot/abc";
  container_root_fs_path = codes "/rootfs";
  resources = record {
    root_uid = 0;
    network = some (record { subnet = network; ip = some 167772161 });
    bridge = codes "w1b-0";
    ports = 60001 ∷ [];
    external_ip = 0;
  };
  state = active;
  events = codes "out of memory" ∷ [];
  handle = codes "web";
  grace_time = 60;
  properties = (codes "owner", codes "me") ∷ [];
  env = codes "A=1" ∷ [];
  limits = record { memory = some 1024; disk = none; bandwidth = none; cpu = none };
  processes = [];
  default_process_signaller = false;
  net_ins = record { host_port = 60001; container_port = 80 } ∷ [];
  net_outs = 5 ∷ [];
  version = true;
}

abbrev container : LinuxContainer host
container = new_linux_container {h = host} spec

abbrev port_pool : PortPool
port_pool = record {
  start = 60000;
  size = 3;
  pool = 60000 ∷ 60002 ∷ [];
  state = record { offset = 0 };
}

abbrev day : List (Call host)
day =
    maps 0 8080
    ∷ lets_out 6
    ∷ sets (codes "owner") (codes "you")
    ∷ limits_memory 2048
    ∷ runs_out
    ∷ stops false
    ∷ []

day_run :
    let (c, p, k) = calls day container port_pool [] in
    (c.spec.state ≡ stopped)
    × (c.spec.resources.ports ≡ 60001 ∷ 60000 ∷ [])
    × (c.spec.limits.memory ≡ some 2048)
unfolding calls stop on_oom register_event limit_memory set_property net_out net_in Ports.acquire
    new_linux_container
day_run = (refl, refl, refl)

kept_writes :
    (group file value : Text) (k : host.Kernel)
    → (host.cgroup_set group file value k).1 ≡ none
    → host.cgroup_get group file (host.cgroup_set group file value k).0 ≡ ok value
kept_writes group file value k e =
    ground (arith, Map.lookup-insert file file value k, text_beq_iff file file)

abbrev processes : List ActiveProcess
processes = record { id = 7; tty = false } ∷ record { id = 3; tty = true } ∷ []
