-- ===== src/Yarn/Nide.antt =====
-- The `YarnContainer` of YarnBackend.go and the one process that it runs. The operating system's
-- answers (whether the program starts, how the process ends) are arguments.
use garden_linux.Common.{
  ℕ, Bool, true, false, not, [], Option, none, some, if◌then◌else◌, Outcome, ok, err, Text, codes,
  text_eq, nat_eq,
}
use garden_linux.Common.Map.{Map, lookup}

pub data ℤ : Type 0 where
  pos negsuc : ℕ → ℤ

-- The types of the garden package that the container only stores.
pub record LimitTypes : Type 1 where
  pub Bandwidth : Type 0
  pub Cpu : Type 0
  pub Disk : Type 0
  pub Memory : Type 0
  pub no_bandwidth : Bandwidth
  pub no_cpu : Cpu
  pub no_disk : Disk
  pub no_memory : Memory

-- `exec.Cmd`: whether `Start` made a process; `ProcessState`, nil until the process is waited for,
-- with what `Exited` says; and whether `Kill` was called.
pub record Cmd : Type 0 where
  pub started : Bool
  pub process_state : Option Bool
  pub killed : Bool

pub record YarnContainer (l : LimitTypes) : Type 0 where
  pub props : Map Text Text
  pub limits_bandwidth : l.Bandwidth
  pub limits_cpu : l.Cpu
  pub limits_disk : l.Disk
  pub limit_memory : l.Memory
  pub cmd : Option Cmd

-- `Wait` of `exec.Cmd`: no error, an `ExitError`, with `Exited` and the status if there is a
-- `WaitStatus`, or another error.
pub data Waited : Type 0 where
  clean : Waited
  exit_error : Bool → Option ℤ → Waited
  wait_error : Text → Waited

-- `garden.ContainerInfo`; the fields that are always empty are left out.
pub record Info : Type 0 where
  pub state : Text
  pub properties : Map Text Text

-- `garden.Metrics`: the numbers that the container makes up, and no other.
pub record Metrics : Type 0 where
  pub rss : ℕ
  pub usage : ℕ
  pub user : ℕ
  pub system : ℕ
  pub total_bytes_used : ℕ
  pub total_inodes_used : ℕ
  pub exclusive_bytes_used : ℕ
  pub exclusive_inodes_used : ℕ
  pub rx_bytes : ℕ
  pub tx_bytes : ℕ

unfoldable pub made_up : Metrics
made_up = record {
  rss = 1;
  usage = 1;
  user = 1;
  system = 1;
  total_bytes_used = 1;
  total_inodes_used = 1;
  exclusive_bytes_used = 1;
  exclusive_inodes_used = 1;
  rx_bytes = 1;
  tx_bytes = 1;
}

abbrev pub nm_handler : Text
nm_handler = codes "yarn-nide-manager"

-- `c.cmd != nil && c.cmd.ProcessState != nil && !c.cmd.ProcessState.Exited()`.
unfoldable pub is_active : Option Cmd → Bool
is_active none = false
is_active (some c) = elim c.process_state [ none ↦ false | some exited ↦ not exited ]

unfoldable pub kill_cmd : Option Cmd → Option Cmd
kill_cmd none = none
kill_cmd (some c) = some (record c { killed = true })

-- What `ProcessState` is after `Wait`.
unfoldable pub state_after : Waited → Option Bool → Option Bool
state_after clean before = some true
state_after (exit_error exited _) before = some exited
state_after (wait_error _) before = before

-- What `GardenProcess.Wait` returns.
unfoldable pub wait_result : Waited → Outcome Text ℤ
wait_result clean = ok (pos 0)
wait_result (exit_error _ none) = ok (pos 0)
wait_result (exit_error _ (some status)) = ok status
wait_result (wait_error e) = err e

unfoldable pub wait_cmd : Waited → Option Cmd → Option Cmd
unfolding state_after
wait_cmd w none = none
wait_cmd w (some c) = some (record c { process_state = state_after w c.process_state })

module _ {l : LimitTypes} where
  -- `&YarnContainer{}`.
  unfoldable pub blank : YarnContainer l
  blank = record {
    props = [];
    limits_bandwidth = l.no_bandwidth;
    limits_cpu = l.no_cpu;
    limits_disk = l.no_disk;
    limit_memory = l.no_memory;
    cmd = none;
  }

  unfoldable pub kill : YarnContainer l → YarnContainer l
  unfolding is_active kill_cmd
  kill c = if is_active c.cmd then record c { cmd = kill_cmd c.cmd } else c

  unfoldable pub get_state : YarnContainer l → Text
  unfolding is_active
  get_state c = if is_active c.cmd then codes "active" else codes "stopped"

  unfoldable pub info : YarnContainer l → Info
  unfolding get_state
  info c = record { state = get_state c; properties = c.props }

  -- `Run`, when `Start` gives this error: the command stays set.
  unfoldable pub run : Option Text → YarnContainer l → YarnContainer l × Outcome Text (Unit {0})
  run starts c = elim c.cmd [
    | some _ ↦ (c, err (codes "one process is enough"))
    | none ↦ elim starts [
      | none ↦ (
        record c { cmd = some (record { started = true; process_state = none; killed = false }) },
        ok (record {}),
      )
      | some e ↦ (
        record c { cmd = some (record { started = false; process_state = none; killed = false }) },
        err e,
      )
    ]
  ]

  -- `Wait` of the process that `Run` returned, which is the command of the container.
  unfoldable pub wait : Waited → YarnContainer l → YarnContainer l × Outcome Text ℤ
  unfolding wait_cmd wait_result
  wait w c = (record c { cmd = wait_cmd w c.cmd }, wait_result w)

  unfoldable pub limit_bandwidth : l.Bandwidth → YarnContainer l → YarnContainer l
  limit_bandwidth b c = record c { limits_bandwidth = b }

  unfoldable pub limit_cpu : l.Cpu → YarnContainer l → YarnContainer l
  limit_cpu x c = record c { limits_cpu = x }

  unfoldable pub limit_memory_of : l.Memory → YarnContainer l → YarnContainer l
  limit_memory_of m c = record c { limit_memory = m }

  unfoldable pub property : Text → YarnContainer l → Text
  property name c = elim (lookup name c.props) [ none ↦ [] | some value ↦ value ]

  unfoldable pub set_property : Text → Text → YarnContainer l → Outcome Text (Unit {0})
  set_property name value c = err (codes "set - props are read only. sorry!")

  unfoldable pub remove_property : Text → YarnContainer l → Outcome Text (Unit {0})
  remove_property name c = err (codes "remove - props are read only. sorry!")
