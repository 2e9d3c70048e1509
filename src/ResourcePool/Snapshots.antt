-- ===== src/ResourcePool/Snapshots.antt =====
-- Restore of resource_pool.go: a container's share is taken back from its snapshot
-- (linux_container/snapshot.go) into a specification (linux_backend/resources.go).
use garden_linux.Common.{
  ℕ, Bool, false, List, [], ◌∷◌, ◌++◌, Option, none, some, Outcome, ok, err, panic, ◌>>=◌, Text,
  codes, text_eq, nat_eq,
}
use garden_linux.Common.Map.{Map}
use garden_linux.Subnets.Pool.{Network}
use garden_linux.Subnets.Pool as Subnets
use garden_linux.PortPool.{PortPool, PortError}
use garden_linux.PortPool as Ports
use garden_linux.Bridges.{rereserve}
use garden_linux.ResourcePool.{
  Resources, Pools, PoolError, decode_failed, version_failed, subnet_failed, port_failed,
  bridge_failed, release_ports, release_network,
}

pub record NetInSpec : Type 0 where
  pub host_port : ℕ
  pub container_port : ℕ

pub record ResourcesSnapshot : Type 0 where
  pub user_uid : ℕ
  pub root_uid : ℕ
  pub network : Option Network
  pub bridge : Text
  pub ports : List ℕ

-- Limits, processes and rules for outgoing packets are only copied; their types are parameters.
pub record ContainerSnapshot (Limits Process NetOut : Type 0) : Type 0 where
  pub id : Text
  pub handle : Text
  pub root_fs_path : Text
  pub grace_time : ℕ
  pub state : Text
  pub events : List Text
  pub limits : Limits
  pub resources : ResourcesSnapshot
  pub processes : List Process
  pub default_process_signaller : Bool
  pub net_ins : List NetInSpec
  pub net_outs : List NetOut
  pub properties : Map Text Text
  pub env_vars : List Text

-- Of the embedded `garden.ContainerSpec`, the fields that a snapshot can fill.
pub record LinuxContainerSpec (Limits Process NetOut Version : Type 0) : Type 0 where
  pub id : Text
  pub container_path : Text
  pub container_root_fs_path : Text
  pub resources : Resources
  pub state : Text
  pub events : List Text
  pub handle : Text
  pub grace_time : ℕ
  pub properties : Map Text Text
  pub env : List Text
  pub limits : Limits
  pub processes : List Process
  pub default_process_signaller : Bool
  pub net_ins : List NetInSpec
  pub net_outs : List NetOut
  pub version : Version

-- `for _, port := range resources.Ports { err = p.portPool.Remove(port) … }`, up to the error.
unfoldable pub remove_ports : List ℕ → PortPool → PortPool × Outcome PortError (Unit {0})
remove_ports [] p = (p, ok tt)
remove_ports (port ∷ ports) p = elim (Ports.remove p port) [
  | ok q ↦ remove_ports ports q
  | err e ↦ (p, err e)
  | panic ↦ (p, panic)
]

-- The steps of `Restore` on the pools. A nil network makes `Remove` panic.
unfoldable pub restore_pools :
    Text → ResourcesSnapshot → Pools → Pools × Outcome PoolError (Unit {0})
unfolding remove_ports
restore_pools id r p = elim r.network [
  | none ↦ (p, panic)
  | some network ↦ elim (Subnets.remove p.subnets network) [
    | err e ↦ (p, err (subnet_failed e))
    | panic ↦ (p, panic)
    | ok subnets ↦
        let (bridges, reserved) = rereserve r.bridge network.subnet id p.bridges in
        elim reserved [
          | err e ↦ (
            record p { subnets = release_network (some network) subnets; bridges = bridges },
            err (bridge_failed e),
          )
          | panic ↦ (record p { subnets = subnets; bridges = bridges }, panic)
          | ok _ ↦
              let (ports, removed) = remove_ports r.ports p.ports in
              elim removed [
                | err e ↦ (
                  record p {
                    ports = release_ports r.ports ports;
                    subnets = release_network (some network) subnets;
                    bridges = bridges;
                  },
                  err (port_failed e),
                )
                | panic ↦ (record p { ports = ports; subnets = subnets; bridges = bridges }, panic)
                | ok _ ↦ (record p { ports = ports; subnets = subnets; bridges = bridges }, ok tt)
              ]
        ]
  ]
]

-- The file's content, `none` if there is no file, and `semver.Make` are parameters.
unfoldable pub restore_container_version :
    {Version : Type 0}
    → Version
    → (Text → Option Version)
    → Outcome Text (Option Text)
    → Outcome PoolError Version
restore_container_version missing make (ok none) = ok missing
restore_container_version missing make (ok (some content)) = elim (make content) [
  | none ↦ err version_failed
  | some v ↦ ok v
]
restore_container_version missing make (err e) = err version_failed
restore_container_version missing make panic = panic

-- `path.Join(p.depotPath, id)` for a clean depot path.
unfoldable pub container_path : Text → Text → Text
container_path depot id = depot ++ codes "/" ++ id

module _ {Limits Process NetOut Version : Type 0} where
  unfoldable pub restored_spec :
      Text
      → ℕ
      → ContainerSnapshot Limits Process NetOut
      → Version
      → LinuxContainerSpec Limits Process NetOut Version
  unfolding container_path
  restored_spec depot external_ip s version = record {
    id = s.id;
    container_path = container_path depot s.id;
    container_root_fs_path = s.root_fs_path;
    resources = record {
      root_uid = s.resources.root_uid;
      network = s.resources.network;
      bridge = s.resources.bridge;
      ports = s.resources.ports;
      external_ip = external_ip;
    };
    state = s.state;
    events = s.events;
    handle = s.handle;
    grace_time = s.grace_time;
    properties = s.properties;
    env = [];
    limits = s.limits;
    processes = s.processes;
    default_process_signaller = false;
    net_ins = s.net_ins;
    net_outs = s.net_outs;
    version = version;
  }

  -- The decoded snapshot (`none`: the decoder's error), and the container's version file.
  unfoldable pub restore :
      Text
      → ℕ
      → (Text → Outcome PoolError Version)
      → Option (ContainerSnapshot Limits Process NetOut)
      → Pools
      → Pools × Outcome PoolError (LinuxContainerSpec Limits Process NetOut Version)
  unfolding restore_pools restored_spec
  restore depot external_ip version_of none p = (p, err decode_failed)
  restore depot external_ip version_of (some s) p =
      let (q, done) = restore_pools s.id s.resources p in
      (q, done >>= λ _. version_of s.id >>= λ v. ok (restored_spec depot external_ip s v))
