-- ===== src/Container/Calls.antt =====
-- Any sequence of calls on a container that shares the port pool with others.
use garden_linux.Common.{ℕ, Bool, List, [], ◌∷◌, Text, text_eq, nat_eq}
use garden_linux.PortPool.{PortPool}
use garden_linux.Container.{Host, LinuxContainer, set_grace_time, start, cleanup, stop}
use garden_linux.Container.Mappings.{net_in, net_out}
use garden_linux.Container.Properties.{set_property, remove_property}
use garden_linux.Container.Limiting.{limit_memory, limit_cpu, limit_disk, limit_bandwidth, on_oom}
use garden_linux.Container.Processes.{ProcessSpec, run_process}

-- The calls that change a container, and its watcher's call when memory runs out.
pub data Call (h : Host) : Type 0 where
  starts cleans_up runs_out : Call h
  stops : Bool → Call h
  maps : ℕ → ℕ → Call h
  lets_out : h.NetOut → Call h
  sets : Text → Text → Call h
  removes : Text → Call h
  limits_memory limits_cpu sets_grace_time : ℕ → Call h
  limits_disk : h.Disk → Call h
  limits_bandwidth : h.Bandwidth → Call h
  runs : ProcessSpec → Call h

module _ {h : Host} where
  -- What a call leaves, whatever its result is.
  unfoldable pub after :
      Call h → LinuxContainer h → PortPool → h.Kernel → LinuxContainer h × PortPool × h.Kernel
  after starts c p k = let (c', k', _) = start c k in (c', p, k')
  after cleans_up c p k = let (c', k', _) = cleanup c k in (c', p, k')
  after runs_out c p k = let (c', k') = on_oom c k in (c', p, k')
  after (stops kill) c p k = let (c', k', _) = stop kill c k in (c', p, k')
  after (maps host_port container_port) c p k =
      let (p', (c', k', _)) = net_in host_port container_port c p k in (c', p', k')
  after (lets_out r) c p k = let (c', k', _) = net_out r c k in (c', p, k')
  after (sets key value) c p k = (set_property key value c, p, k)
  after (removes key) c p k = ((remove_property key c).0, p, k)
  after (limits_memory n) c p k = let (c', k', _) = limit_memory n c k in (c', p, k')
  after (limits_cpu n) c p k = let (c', k', _) = limit_cpu n c k in (c', p, k')
  after (sets_grace_time n) c p k = (set_grace_time n c, p, k)
  after (limits_disk d) c p k = let (c', k', _) = limit_disk d c k in (c', p, k')
  after (limits_bandwidth b) c p k = let (c', k', _) = limit_bandwidth b c k in (c', p, k')
  after (runs s) c p k = let (c', k', _) = run_process s c k in (c', p, k')

  unfoldable pub calls :
      List (Call h)
      → LinuxContainer h
      → PortPool
      → h.Kernel
      → LinuxContainer h × PortPool × h.Kernel
  unfolding after
  calls [] c p k = (c, p, k)
  calls (x ∷ xs) c p k = let (c', p', k') = after x c p k in calls xs c' p' k'
