-- ===== src/ResourcePool/Acquiring.antt =====
-- Acquire of resource_pool.go as a whole, and what it takes back when it fails.
use garden_linux.Common.{
  false, List, [], ◌∷◌, ◌++◌, Option, none, some, Outcome, ok, err, panic, Text, codes, text_eq,
  nat_eq,
}
use garden_linux.Common.Map.{Map}
use garden_linux.Common.Decimal.{decimal}
use garden_linux.Environment.{new_env, merge, array}
use garden_linux.Subnets.Address.{gateway_ip}
use garden_linux.Subnets.Pool.{Network}
use garden_linux.Bridges.{Manager}
use garden_linux.ResourcePool.{
  Resources, Pools, PoolError, system_failed, release_pool_resources, acquire_pool_resources,
}
use garden_linux.ResourcePool.Teardown.{System}
use garden_linux.ResourcePool.Snapshots.{LinuxContainerSpec, container_path}
use garden_linux.ResourcePool.Creation.{
  Request, Settings, Creation, get_handle, then_run, write_bind_mounts, setup_container_directories,
  try_release_system_resources,
}

module _ {s : System} {Version : Type 0} (c : Creation s) (settings : Settings Version)
    (show_version : Version → Text) where
  -- The environment of create.sh. A network with no gateway makes it panic.
  unfoldable pub create_env :
      Text → Text → Resources → Network → Text → Outcome PoolError (Map Text Text)
  create_env id rootfs r network bridge = elim (gateway_ip network.subnet) [
    | none ↦ panic
    | some gateway ↦ ok (
        (codes "id", id)
        ∷ (codes "rootfs_path", rootfs)
        ∷ (codes "network_host_ip", c.show_ip (some gateway))
        ∷ (codes "network_container_ip", c.show_ip network.ip)
        ∷ (codes "network_cidr_suffix", decimal network.subnet.ones)
        ∷ (codes "network_cidr", c.show_net network.subnet)
        ∷ (codes "external_ip", c.show_ip (some settings.external_ip))
        ∷ (codes "container_iface_mtu", decimal settings.mtu)
        ∷ (codes "bridge_iface", bridge)
        ∷ (codes "root_uid", decimal r.root_uid)
        ∷ (codes "PATH", settings.path_variable)
        ∷ [])
  ]

  -- create.sh and the files that follow it.
  unfoldable pub create_files :
      Text
      → Text
      → Request
      → Resources
      → Map Text Text
      → s.devices.Kernel
      → s.devices.Kernel × Option Text
  unfolding then_run write_bind_mounts
  create_files directory rootfs q r env k =
      then_run
        (then_run
          (then_run (c.run_create directory (array env) k)
            (c.write_file (directory ++ codes "/rootfs-provider") (codes "docker-composite")))
          (c.write_file (directory ++ codes "/version") (show_version settings.version)))
        (write_bind_mounts c (directory ++ codes "/lib/hook-parent-before-clone.sh") rootfs
          q.bind_mounts r.root_uid)

  -- `acquireSystemResources` once the directories are there.
  unfoldable pub run_scripts :
      Text
      → Text
      → Request
      → Resources
      → Manager
      → (Text × Map Text Text × Text)
      → s.devices.Kernel
      → Manager × s.devices.Kernel × Outcome PoolError (Text × Map Text Text × Text)
  unfolding create_env create_files try_release_system_resources
  run_scripts directory id q r m (rootfs, vars, bridge) k = elim r.network [
    | none ↦ (m, k, panic)
    | some network ↦ elim (create_env id rootfs r network bridge) [
      | err e ↦ (m, k, err e)
      | panic ↦ (m, k, panic)
      | ok env ↦
          let (k₁, failed) = create_files directory rootfs q r env k in
          elim failed [
            | none ↦ (m, k₁, ok (rootfs, vars, bridge))
            | some e ↦
                let (m₂, k₂) = try_release_system_resources c id m k₁ in (m₂, k₂, err system_failed)
          ]
    ]
  ]

  -- The result is the path of the root file system, its environment, and the bridge.
  unfoldable pub acquire_system_resources :
      Text
      → Request
      → Resources
      → Manager
      → s.devices.Kernel
      → Manager × s.devices.Kernel × Outcome PoolError (Text × Map Text Text × Text)
  unfolding run_scripts container_path
  acquire_system_resources id q r m k =
      let directory = container_path settings.depot id in
      let (k₁, not_made) = c.make_directory directory k in
      elim not_made [
        | some e ↦ (m, k₁, err system_failed)
        | none ↦
            let (m₂, k₂, set_up) = setup_container_directories c directory id q r m k₁ in
            elim set_up [
              | err e ↦ (m₂, c.remove_directory directory k₂, err e)
              | panic ↦ (m₂, k₂, panic)
              | ok made ↦ run_scripts directory id q r m₂ made k₂
            ]
      ]

  -- What `Acquire` does with the filter's error and the environment once all is there.
  unfoldable pub check_acquired :
      Option Text → Request → Map Text Text → Outcome PoolError (List Text)
  check_acquired filter_failed q rootfs_env = elim filter_failed [
    | some e ↦ err system_failed
    | none ↦ elim (new_env q.env) [
      | err e ↦ err system_failed
      | panic ↦ panic
      | ok spec_env ↦ ok (array (merge rootfs_env spec_env))
    ]
  ]

  -- `Acquire` from the system's resources on; the share of the pools goes back on any error.
  unfoldable pub acquire_system :
      Option Text
      → Text
      → Request
      → Resources
      → Pools
      → s.devices.Kernel
      → Pools × s.devices.Kernel × Outcome PoolError (Text × List Text × Resources)
  unfolding acquire_system_resources check_acquired
  acquire_system filter_failed id q r p k =
      let (m, k₁, acquired) = acquire_system_resources id q r p.bridges k in
      elim acquired [
        | err e ↦ (release_pool_resources r (record p { bridges = m }), k₁, err e)
        | panic ↦ (record p { bridges = m }, k₁, panic)
        | ok (rootfs, rootfs_env, bridge) ↦ elim (check_acquired filter_failed q rootfs_env) [
          | ok env ↦ (record p { bridges = m }, k₁, ok (rootfs, env, record r { bridge = bridge }))
          | err e ↦
              let (m₂, k₂) = try_release_system_resources c id m k₁ in
              (release_pool_resources r (record p { bridges = m₂ }), k₂, err e)
          | panic ↦ (record p { bridges = m }, k₁, panic)
        ]
      ]

  -- The id is the next one of the generator. The filter is set up at the same time as the rest,
  -- which does not read it; here it comes first.
  unfoldable pub acquire :
      {Limits Process NetOut : Type 0}
      → Limits
      → Text
      → Request
      → Pools
      → s.devices.Kernel
      → Pools
        × s.devices.Kernel
        × Outcome PoolError (LinuxContainerSpec Limits Process NetOut Version)
  unfolding acquire_system get_handle container_path
  acquire limits id q p k =
      let handle = get_handle q.handle id in
      let (k₁, filter_failed) = c.setup_filter id handle k in
      let (p₁, pooled) =
        acquire_pool_resources c.parse_cidr settings.mapped_root settings.external_ip q.network
          q.privileged p in
      elim pooled [
        | err e ↦ (p₁, k₁, err e)
        | panic ↦ (p₁, k₁, panic)
        | ok r ↦
            let (p₂, k₂, acquired) = acquire_system filter_failed id q r p₁ k₁ in
            elim acquired [
              | err e ↦ (p₂, k₂, err e)
              | panic ↦ (p₂, k₂, panic)
              | ok (rootfs, env, resources) ↦ (
                p₂,
                k₂,
                ok (record {
                  id = id;
                  container_path = container_path settings.depot id;
                  container_root_fs_path = rootfs;
                  resources = resources;
                  state = codes "born";
                  events = [];
                  handle = handle;
                  grace_time = q.grace_time;
                  properties = q.properties;
                  env = env;
                  limits = limits;
                  processes = [];
                  default_process_signaller = false;
                  net_ins = [];
                  net_outs = [];
                  version = settings.version;
                }),
              )
            ]
      ]
