-- ===== src/ResourcePool/Creation.antt =====
-- Acquire of resource_pool.go: the share of the pools, and then the files, the root file system, the
-- bridge and the scripts of a new container.
use garden_linux.Common.{
  ℕ, Bool, not, List, [], ◌∷◌, ◌++◌, Option, none, some, ◌==◌, if◌then◌else◌, Outcome, ok, err,
  panic, Text, codes, text_beq, text_eq, nat_eq,
}
use garden_linux.Common.Map.{Map}
use garden_linux.Environment.{new_env}
use garden_linux.Subnets.Address.{IpNet}
use garden_linux.Subnets.Pool.{Network}
use garden_linux.Bridges.{Manager, reserve}
use garden_linux.ResourcePool.{Resources, PoolError, system_failed, bridge_failed}
use garden_linux.ResourcePool.Teardown.{System, release_system_resources}

-- `garden.BindMount`: the origin is the container or the host, the mode is `rw` or `ro`.
pub record BindMount : Type 0 where
  pub src_path : Text
  pub dst_path : Text
  pub from_container : Bool
  pub read_write : Bool

-- `garden.ContainerSpec`, with the disk limits that the pool reads.
pub record Request : Type 0 where
  pub handle : Text
  pub grace_time : ℕ
  pub root_fs_path : Text
  pub bind_mounts : List BindMount
  pub network : Text
  pub properties : Map Text Text
  pub env : List Text
  pub privileged : Bool
  pub byte_hard : ℕ
  pub scope : ℕ

-- The fields of the pool that do not change.
pub record Settings (Version : Type 0) : Type 0 where
  pub depot : Text
  pub external_ip : ℕ
  pub mapped_root : ℕ
  pub mtu : ℕ
  pub path_variable : Text
  pub version : Version

-- What `Acquire` calls besides: the file system, the scripts, the provider of root file systems,
-- the filter, and functions of Go's library. A nil error is `none`.
pub record Creation (s : System) : Type 1 where
  pub join_path : Text → Text → Text
  pub show_ip : Option ℕ → Text
  pub show_net : IpNet → Text
  pub parse_cidr : Text → Option (ℕ × IpNet)
  pub parse_url : Text → Option Text
  pub make_directory : Text → s.devices.Kernel → s.devices.Kernel × Option Text
  pub remove_directory : Text → s.devices.Kernel → s.devices.Kernel
  pub create_rootfs :
      Text
      → Text
      → Bool
      → ℕ
      → ℕ
      → s.devices.Kernel
      → s.devices.Kernel × Outcome Text (Text × List Text)
  pub write_file : Text → Text → s.devices.Kernel → s.devices.Kernel × Option Text
  pub run_create : Text → List Text → s.devices.Kernel → s.devices.Kernel × Option Text
  pub run_bash : Text → s.devices.Kernel → s.devices.Kernel × Option Text
  pub mkdir_chown : Text → ℕ → s.devices.Kernel → s.devices.Kernel × Option Text
  pub setup_filter : Text → Text → s.devices.Kernel → s.devices.Kernel × Option Text

unfoldable pub get_handle : Text → Text → Text
get_handle handle id = if text_beq handle [] then id else handle

-- The next step, unless there was an error.
unfoldable pub then_run : {K : Type 0} → K × Option Text → (K → K × Option Text) → K × Option Text
then_run (k, none) next = next k
then_run (k, some e) next = (k, some e)

module _ {s : System} (c : Creation s) where
  unfoldable pub write_bind_mounts :
      Text → Text → List BindMount → ℕ → s.devices.Kernel → s.devices.Kernel × Option Text
  unfolding then_run
  write_bind_mounts hook rootfs [] uid k = (k, none)
  write_bind_mounts hook rootfs (bm ∷ bms) uid k =
      let dst = c.join_path rootfs bm.dst_path in
      let src = if bm.from_container then c.join_path rootfs bm.src_path else bm.src_path in
      let mode = if bm.read_write then codes "rw" else codes "ro" in
      let written =
        then_run
          (then_run (then_run (c.run_bash (codes "echo >> " ++ hook) k) (c.mkdir_chown dst uid)) (
            c.run_bash
              (codes "echo mount -n --bind " ++ src ++ codes " " ++ dst ++ codes " >> " ++ hook)))
          (c.run_bash (
            codes "echo mount -n --bind -o remount,"
            ++ mode
            ++ codes " "
            ++ src
            ++ codes " "
            ++ dst
            ++ codes " >> "
            ++ hook)) in
      elim written.1 [
        | some e ↦ (written.0, some e)
        | none ↦ write_bind_mounts hook rootfs bms uid written.0
      ]

  -- An environment that cannot be read fails after the root file system was made.
  unfoldable pub setup_rootfs :
      Text
      → Request
      → Resources
      → s.devices.Kernel
      → s.devices.Kernel × Outcome PoolError (Text × Map Text Text)
  setup_rootfs id q r k = elim (c.parse_url q.root_fs_path) [
    | none ↦ (k, err system_failed)
    | some url ↦
        let (k', made) = c.create_rootfs id url (not (r.root_uid == 0)) q.byte_hard q.scope k in
        elim made [
          | err e ↦ (k', err system_failed)
          | panic ↦ (k', panic)
          | ok (path, vars) ↦ elim (new_env vars) [
            | err e ↦ (k', err system_failed)
            | panic ↦ (k', panic)
            | ok env ↦ (k', ok (path, env))
          ]
        ]
  ]

  -- The bridge of the container's subnet, and its name in a file.
  unfoldable pub setup_bridge :
      Text
      → Text
      → Network
      → Manager
      → s.devices.Kernel
      → Manager × s.devices.Kernel × Outcome PoolError Text
  setup_bridge directory id network m k =
      let (m', k', reserved) = reserve s.devices network.subnet id m k in
      elim reserved [
        | err e ↦ (m', k', err (bridge_failed e))
        | panic ↦ (m', k', panic)
        | ok name ↦
            let (k₁, not_written) = c.write_file (directory ++ codes "/bridge-name") name k' in
            elim not_written [ some e ↦ (m', k₁, err system_failed) | none ↦ (m', k₁, ok name) ]
      ]

  -- The root file system, its environment, and the bridge. A nil network makes it panic.
  unfoldable pub setup_container_directories :
      Text
      → Text
      → Request
      → Resources
      → Manager
      → s.devices.Kernel
      → Manager × s.devices.Kernel × Outcome PoolError (Text × Map Text Text × Text)
  unfolding setup_rootfs setup_bridge
  setup_container_directories directory id q r m k =
      let (k₁, made) = setup_rootfs id q r k in
      elim made [
        | err e ↦ (m, k₁, err e)
        | panic ↦ (m, k₁, panic)
        | ok (path, env) ↦ elim r.network [
          | none ↦ (m, k₁, panic)
          | some network ↦
              let (m₂, k₂, bridged) = setup_bridge directory id network m k₁ in
              elim bridged [
                | ok name ↦ (m₂, k₂, ok (path, env, name))
                | err e ↦ (m₂, (s.destroy_rootfs id k₂).0, err e)
                | panic ↦ (m₂, k₂, panic)
              ]
        ]
      ]

  unfoldable pub try_release_system_resources :
      Text → Manager → s.devices.Kernel → Manager × s.devices.Kernel
  try_release_system_resources id m k =
      let (m', k', _) = release_system_resources s id m k in (m', k')
