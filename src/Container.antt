-- ===== src/Container.antt =====
-- linux_container/linux_container.go: a container, its state and the methods that change it.
pub mod Limiting
pub mod Processes
pub mod Snapshots
pub mod Calls
pub mod Lifecycle
pub mod Held
pub mod Mappings
pub mod Properties
pub mod Restored
pub mod Resumed
pub mod Limited
pub mod Metrics
pub mod Usage
mod Tests
use garden_linux.Common.{
  ℕ, zero, suc, ◌+◌, ◌-◌, ◌*◌, ◌/◌, ◌%◌, ◌^◌, ◌≤◌, ◌<◌, ◌≡◌, ◌≢◌, ◌↔◌, ◌⊎◌, inl, inr, refl, sym, ap,
  ◌∙◌, Bool, true, false, not, ◌&&◌, ◌||◌, List, [], ◌∷◌, ◌++◌, map, append-nil, append_assoc,
  Option, none, some, ◌==◌, ==_iff, if◌then◌else◌, leb, ltb, length, length-append, take, drop, set,
  count, count-append, All, Outcome, ok, err, panic, ◌>>=◌, >>=-eq-ok, arith, Bool-cases,
  Option-cases, List-cases, lt-or-ge, eq-or-ne, Text, codes, text_beq, text_beq_iff, text_eq,
  nat_eq, Eq, snoc-ne-nil, Outcome-cases, range, replicate,
}
use garden_linux.Common.Map
use garden_linux.Common.Map.{Map}
use garden_linux.Common.Decimal.{decimal}
use garden_linux.PortPool.{PortPool, PortError}
use garden_linux.PortPool as Ports
use garden_linux.Subnets.Address.{IpNet}
use garden_linux.Environment.{EnvError}
use garden_linux.ResourcePool.{Resources}
use garden_linux.ResourcePool.Snapshots.{NetInSpec, LinuxContainerSpec}

-- `exec.Cmd`: the program, its arguments, and its environment.
pub record Command : Type 0 where
  pub program : Text
  pub args : List Text
  pub env : List Text

-- `linux_backend.ActiveProcess`.
pub record ActiveProcess : Type 0 where
  pub id : ℕ
  pub tty : Bool

-- `linux_backend.Limits`: a nil pointer is `none`. Memory and CPU limits have one field, which is
-- a number; the others are only handed on.
pub record Limits (Disk Bandwidth : Type 0) : Type 0 where
  pub memory : Option ℕ
  pub disk : Option Disk
  pub bandwidth : Option Bandwidth
  pub cpu : Option ℕ

-- `process_tracker.NamespacedSignaller` and `LinkSignaller`.
pub data Signaller : Type 0 where
  namespaced link : Signaller

-- What a container calls: the command runner, the managers of iptables, cgroups, quotas and
-- bandwidth, the network filter, the watcher for a lack of memory and the process tracker, over
-- the state of the host, and types of packages that are not in the repository. A nil error is
-- `none`.
pub record Host : Type 1 where
  pub Kernel : Type 0
  pub Disk : Type 0
  pub Bandwidth : Type 0
  pub NetOut : Type 0
  pub Version : Type 0
  pub path_variable : Text
  pub is_missing : Version → Bool
  pub run : Command → Kernel → Kernel × Option Text
  pub container_setup : Text → Text → Option ℕ → IpNet → Kernel → Kernel × Option Text
  pub filter_net_out : NetOut → Kernel → Kernel × Option Text
  pub cgroup_set : Text → Text → Text → Kernel → Kernel × Option Text
  pub cgroup_get : Text → Text → Kernel → Outcome Text Text
  pub zero_disk : Disk
  pub is_zero_disk : Disk → Bool
  pub zero_bandwidth : Bandwidth
  pub is_zero_bandwidth : Bandwidth → Bool
  pub quota_get : Text → Kernel → Outcome Text Disk
  pub quota_set : Text → Disk → Kernel → Kernel × Option Text
  pub bandwidth_set : Bandwidth → Kernel → Kernel × Option Text
  pub watch : Kernel → Kernel × Option Text
  pub unwatch : Kernel → Kernel
  pub active_processes : Kernel → List Text
  pub tracker_restore : Text → Signaller → Kernel → Kernel
  pub tracker_run : Text → Command → Bool → Signaller → Kernel → Kernel × Outcome Text Text

pub data ContainerError : Type 0 where
  undefined_property : Text → ContainerError
  failed_port : PortError → ContainerError
  failed : Text → ContainerError
  bad_number : Text → ContainerError
  bad_env : EnvError → ContainerError
  no_user : ContainerError

abbrev pub born : Text
born = codes "born"

abbrev pub active : Text
active = codes "active"

abbrev pub stopped : Text
stopped = codes "stopped"

abbrev pub Spec : Host → Type 0
Spec h = LinuxContainerSpec (Limits h.Disk h.Bandwidth) ActiveProcess h.NetOut h.Version

-- The fields of `LinuxContainer` that change: the embedded specification, the counter of the
-- `ProcessIDPool`, and the grace time.
pub record LinuxContainer (h : Host) : Type 0 where
  pub spec : Spec h
  pub current_process_id : ℕ
  pub grace_time : ℕ

-- A method returns the container, the host and its result.
abbrev pub Result : (h : Host) → Type 0 → Type 0
Result h A = LinuxContainer h × h.Kernel × Outcome ContainerError A

-- `path.Join(c.ContainerPath, file)` for a clean path.
abbrev pub in_directory : Text → Text → Text
in_directory directory file = directory ++ codes "/" ++ file

-- `fmt.Sprintf("KEY=%d", n)`, where `name` ends in `=`.
abbrev pub number_entry : Text → ℕ → Text
number_entry name n = name ++ decimal n

module _ {h : Host} where
  unfoldable pub new_linux_container : Spec h → LinuxContainer h
  new_linux_container spec = record {
    spec = spec;
    current_process_id = 0;
    grace_time = spec.grace_time;
  }

  unfoldable pub set_grace_time : ℕ → LinuxContainer h → LinuxContainer h
  set_grace_time t c = record c { grace_time = t }

  unfoldable pub set_state : Text → LinuxContainer h → LinuxContainer h
  set_state s c = record c { spec = record c.spec { state = s } }

  unfoldable pub register_event : Text → LinuxContainer h → LinuxContainer h
  register_event event c = record c {
    spec = record c.spec { events = c.spec.events ++ event ∷ [] };
  }

  -- `c.Resources.AddPort`.
  unfoldable pub add_port : ℕ → LinuxContainer h → LinuxContainer h
  add_port port c = record c {
    spec = record c.spec {
      resources = record c.spec.resources { ports = c.spec.resources.ports ++ port ∷ [] };
    };
  }

  unfoldable pub add_net_in : ℕ → ℕ → LinuxContainer h → LinuxContainer h
  add_net_in host_port container_port c = record c {
    spec = record c.spec {
      net_ins =
          c.spec.net_ins ++ record { host_port = host_port; container_port = container_port } ∷ [];
    };
  }

  start_command : LinuxContainer h → Command
  start_command c = record {
    program = in_directory c.spec.container_path (codes "start.sh");
    args = [];
    env = (codes "id=" ++ c.spec.id) ∷ (codes "PATH=" ++ h.path_variable) ∷ [];
  }

  -- `Start`. A nil network makes the call of `ContainerSetup` panic.
  unfoldable pub start : LinuxContainer h → h.Kernel → Result h (Unit {0})
  unfolding start_command set_state
  start c k = elim c.spec.resources.network [
    | none ↦ (c, k, panic)
    | some network ↦
        let (k₁, not_set_up) =
          h.container_setup c.spec.id c.spec.resources.bridge network.ip network.subnet k in
        elim not_set_up [
          | some e ↦ (c, k₁, err (failed e))
          | none ↦
              let (k₂, not_started) = h.run (start_command c) k₁ in
              elim not_started [
                | some e ↦ (c, k₂, err (failed e))
                | none ↦ (set_state active c, k₂, ok tt)
              ]
        ]
  ]

  unfoldable pub cleanup : LinuxContainer h → h.Kernel → Result h (Unit {0})
  cleanup c k = (c, h.unwatch k, ok tt)

  stop_command : Bool → LinuxContainer h → Command
  stop_command kill c = record {
    program = in_directory c.spec.container_path (codes "stop.sh");
    args = if kill then codes "-w" ∷ codes "0" ∷ [] else [];
    env = [];
  }

  unfoldable pub stop : Bool → LinuxContainer h → h.Kernel → Result h (Unit {0})
  unfolding stop_command cleanup set_state
  stop kill c k =
      let (k₁, not_stopped) = h.run (stop_command kill c) k in
      elim not_stopped [
        | some e ↦ (c, k₁, err (failed e))
        | none ↦
            let (c', k₂, cleaned) = cleanup c k₁ in
            elim cleaned [
              | ok _ ↦ (set_state stopped c', k₂, ok tt)
              | err e ↦ (c', k₂, err e)
              | panic ↦ (c', k₂, panic)
            ]
      ]
