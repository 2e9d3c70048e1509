-- ===== src/Container/Tests/Saved.antt =====
-- A container that is saved and restored, and what its cgroup files say.
use garden_linux.Common.{
  ◌≡◌, refl, true, false, [], ◌∷◌, ◌++◌, ok, arith, Text, codes, text_eq, nat_eq,
}
use garden_linux.Container.Metrics.{
  parse_memory_stat, parse_cpu_stat, words_after, read_fields, field_of, toward_limit, is_space,
  reversed,
}
use garden_linux.Common.Map
use garden_linux.Common.Map.{Map, UniqueKeys}
use garden_linux.Common.Decimal.{parse_uint}
use garden_linux.ResourcePool.Snapshots.{restored_spec}
use garden_linux.Container.{Spec, active, set_grace_time, new_linux_container, set_state}
use garden_linux.Container.Mappings.{net_in, map_port, net_out}
use garden_linux.Container.Limiting.{limit_memory}
use garden_linux.Container.Processes.{process_signaller}
use garden_linux.Container.Snapshots.{
  Snapshot, snapshot, process_snapshots, restore_container, restore_net_ins, restore_net_outs,
  restore_processes, register_events,
}
use garden_linux.Container.Resumed.{restore_container-snapshot}
use garden_linux.Container.Snapshots.{restore_processes}
use garden_linux.Container.{active}
use garden_linux.ResourcePool.Snapshots.{restored_spec}
use garden_linux.Container.Snapshots.{
  restore_container, restore_limited, restore_rest, restore_net_ins, restore_net_outs,
  register_events, snapshot, Snapshot, process_snapshots,
}
use garden_linux.Container.Resumed.{restore_container-snapshot}
use garden_linux.Common.Decimal.{parse_uint, read_digits}
use garden_linux.Container.Mappings.{net_in, map_port, net_out}
use garden_linux.Container.Processes.{process_signaller}
use garden_linux.Container.{set_state}
use garden_linux.Container.Tests.{host, spec, container, port_pool}

abbrev saved : Snapshot host
saved = record {
  id = spec.id;
  handle = spec.handle;
  root_fs_path = spec.container_root_fs_path;
  grace_time = 60;
  state = active;
  events = spec.events;
  limits = spec.limits;
  resources = record {
    user_uid = 0;
    root_uid = 0;
    network = spec.resources.network;
    bridge = spec.resources.bridge;
    ports = 60001 ∷ [];
  };
  processes = record { id = 7; tty = false } ∷ [];
  default_process_signaller = true;
  net_ins = spec.net_ins;
  net_outs = spec.net_outs;
  properties = spec.properties;
  env_vars = spec.env;
}

saved_run : snapshot (set_grace_time 5 container) [] ≡ ok saved
unfolding snapshot process_snapshots set_grace_time new_linux_container parse_uint read_digits
saved_run = refl

abbrev again : Spec host
again = record spec {
  resources = record spec.resources { external_ip = 9 };
  env = [];
  processes = saved.processes;
}

again_lem : again ≡ restored_spec (codes "/depot") 9 saved true
unfolding restored_spec
again_lem = refl

restored_run :
    (restore_container {h = host} again (new_linux_container {h = host} again) port_pool []).1.2
    ≡ ok tt
unfolding restore_container restore_limited restore_rest restore_net_ins restore_net_outs
    restore_processes net_in map_port net_out limit_memory new_linux_container set_state
    register_events process_signaller
restored_run = refl

restore_container-snapshot_example :
    let (p', r) =
      restore_container {h = host} again (new_linux_container {h = host} again) port_pool [] in
    (p' ≡ port_pool)
    × (r.0.spec.id ≡ container.spec.id)
    × (r.0.spec.handle ≡ container.spec.handle)
    × (r.0.spec.state ≡ container.spec.state)
    × (r.0.spec.properties ≡ container.spec.properties)
    × (r.0.spec.limits ≡ container.spec.limits)
    × (r.0.spec.resources.ports ≡ container.spec.resources.ports)
    × (r.0.spec.resources.bridge ≡ container.spec.resources.bridge)
    × (r.0.spec.resources.network ≡ container.spec.resources.network)
    × (r.0.spec.events ≡ container.spec.events ++ container.spec.events)
    × (r.0.spec.net_ins ≡ container.spec.net_ins ++ container.spec.net_ins)
    × (r.0.spec.net_outs ≡ container.spec.net_outs ++ container.spec.net_outs)
    × (r.0.spec.env ≡ [])
    × (r.0.grace_time ≡ container.spec.grace_time)
unfolding new_linux_container
restore_container-snapshot_example =
    restore_container-snapshot host container 5 [] [] port_pool (codes "/depot") 9 true saved again
      saved_run again_lem ((omega arith, omega arith), tt) restored_run

abbrev memory_file : Text
memory_file =
    codes "total_rss 5" ++ 10 ∷ codes "total_cache 3" ++ 10 ∷ codes "total_inactive_file 4 x"

memory_run : (parse_memory_stat memory_file).total_usage_toward_limit ≡ 4
unfolding parse_memory_stat words_after read_fields field_of toward_limit is_space reversed
    parse_uint read_digits Map.lookup Map.insert
memory_run = refl

cpu_run :
    (parse_cpu_stat (codes "77" ++ 10 ∷ []) (codes "user 3 system 4"))
    ≡ record { usage = 77; user = 3; system = 4 }
unfolding parse_cpu_stat words_after read_fields field_of is_space reversed parse_uint read_digits
    Map.lookup Map.insert
cpu_run = refl
