-- ===== src/Container/Held.antt =====
-- The ports that a container holds while others use the pool too.
use garden_linux.Common.{
  ℕ, ◌≡◌, inl, inr, List, [], ◌∷◌, ◌++◌, ◌==◌, count-append, arith, Bool-cases, text_eq, nat_eq,
  Outcome-cases,
}
use garden_linux.PortPool.{PortPool, PortError}
use garden_linux.PortPool as Ports
use garden_linux.PortPool.Ownership.{IsShared, acquire-IsShared}
use garden_linux.ResourcePool.Held.{reorder-IsShared}
use garden_linux.Container.{
  Host, LinuxContainer, set_grace_time, set_state, register_event, add_port, add_net_in, start,
  cleanup, stop,
}
use garden_linux.Container.Mappings.{net_in, map_port, net_out}
use garden_linux.Container.Properties.{set_property, remove_property}
use garden_linux.Container.Limiting.{limit_memory, limit_cpu, limit_disk, limit_bandwidth, on_oom}
use garden_linux.Container.Processes.{run_process}
use garden_linux.Container.Calls.{
  Call, starts, cleans_up, runs_out, stops, maps, lets_out, sets, removes, limits_memory,
  limits_cpu, sets_grace_time, limits_disk, limits_bandwidth, runs, after, calls,
}

module _ {h : Host} where
  map_port-ports :
      (a b : ℕ) (c : LinuxContainer h) (k : h.Kernel)
      → (map_port a b c k).0.spec.resources.ports ≡ c.spec.resources.ports
  unfolding map_port add_net_in
  map_port-ports a b c k = ground arith

  -- A random port of `NetIn` is the container's, whether it is mapped or not.
  net_in-IsShared :
      (a b : ℕ) (c : LinuxContainer h) (p : PortPool) (k : h.Kernel) (others : List ℕ)
      → IsShared p (c.spec.resources.ports ++ others)
      → let out = net_in a b c p k in IsShared out.0 (out.1.0.spec.resources.ports ++ others)
  unfolding net_in add_port
  net_in-IsShared a b c p k others s = elim (Bool-cases (a == 0)) [
    | inr given ↦ rw (given, net_in, map_port-ports a b c k) s
    | inl any ↦ elim (Outcome-cases (Ports.acquire p)) [
      | inl ((port, p'), got) ↦
          rw (any, got, net_in, map_port-ports port b (add_port port c) k)
            (reorder-IsShared p' _ _
              (λ x. ground (
                arith,
                count-append x c.spec.resources.ports (port ∷ []),
                count-append x (c.spec.resources.ports ++ port ∷ []) others,
                count-append x c.spec.resources.ports others,
              ))
              (acquire-IsShared p p' (c.spec.resources.ports ++ others) port got s).0)
      | inr (inl (e, none_left)) ↦ rw (any, none_left, net_in) s
      | inr (inr stuck) ↦ rw (any, stuck, net_in) s
    ]
  ]

  kept :
      (c c' : LinuxContainer h) (p : PortPool) (others : List ℕ)
      → c'.spec.resources.ports ≡ c.spec.resources.ports
      → IsShared p (c.spec.resources.ports ++ others)
      → IsShared p (c'.spec.resources.ports ++ others)
  kept c c' p others e s = rw e s

  after-IsShared :
      (x : Call h) (c : LinuxContainer h) (p : PortPool) (k : h.Kernel) (others : List ℕ)
      → IsShared p (c.spec.resources.ports ++ others)
      → let out = after x c p k in IsShared out.1 (out.0.spec.resources.ports ++ others)
  unfolding after start cleanup stop on_oom register_event set_state net_out set_property
      remove_property limit_memory limit_cpu limit_disk limit_bandwidth set_grace_time run_process
  after-IsShared starts c p k others s = kept c (start c k).0 p others (ground arith) s
  after-IsShared cleans_up c p k others s = s
  after-IsShared runs_out c p k others s = kept c (on_oom c k).0 p others (ground arith) s
  after-IsShared (stops kill) c p k others s = kept c (stop kill c k).0 p others (ground arith) s
  after-IsShared (maps a b) c p k others s = net_in-IsShared a b c p k others s
  after-IsShared (lets_out r) c p k others s = kept c (net_out r c k).0 p others (ground arith) s
  after-IsShared (sets key v) c p k others s = s
  after-IsShared (removes key) c p k others s =
      kept c (remove_property key c).0 p others (ground arith) s
  after-IsShared (limits_memory n) c p k others s =
      kept c (limit_memory n c k).0 p others (ground arith) s
  after-IsShared (limits_cpu n) c p k others s =
      kept c (limit_cpu n c k).0 p others (ground arith) s
  after-IsShared (sets_grace_time n) c p k others s = s
  after-IsShared (limits_disk d) c p k others s =
      kept c (limit_disk d c k).0 p others (ground arith) s
  after-IsShared (limits_bandwidth b) c p k others s =
      kept c (limit_bandwidth b c k).0 p others (ground arith) s
  after-IsShared (runs r) c p k others s = kept c (run_process r c k).0 p others (ground arith) s

  pub calls-IsShared :
      (xs : List (Call h)) (c : LinuxContainer h) (p : PortPool) (k : h.Kernel) (others : List ℕ)
      → IsShared p (c.spec.resources.ports ++ others)
      → let out = calls xs c p k in IsShared out.1 (out.0.spec.resources.ports ++ others)
  unfolding calls
  calls-IsShared [] c p k others s = s
  calls-IsShared (x ∷ xs) c p k others s =
      let (c', p', k') = after x c p k in
      calls-IsShared xs c' p' k' others (after-IsShared x c p k others s)
