-- ===== src/Firewall.antt =====
-- The packet filter: network/iptables/iptables.go and network/filter.go (Firewall/Rules), and
-- linux_container/iptables_manager (Firewall/Instances).
pub mod Rules
pub mod Chain
pub mod Deciding
pub mod Packets
pub mod Documented
pub mod Verdicts
pub mod Flags
pub mod Instances
pub mod Undoing
mod Tests
mod HostTests
use garden_linux.Common.{Text, List}

-- An `exec.Cmd`: the program and its arguments.
pub record Command : Type 0 where
  pub path : Text
  pub args : List Text

-- The error of a command that fails, with what it wrote to its standard error.
pub record Failure : Type 0 where
  pub message : Text
  pub stderr : Text
