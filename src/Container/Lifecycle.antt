-- ===== src/Container/Lifecycle.antt =====
-- What calls change of a container and what they do not.
use garden_linux.Common.{
  ℕ, ◌≡◌, ◌⊎◌, inl, inr, refl, sym, ap, ◌∙◌, Bool, true, List, [], ◌∷◌, ◌++◌, append-nil,
  append_assoc, ◌==◌, arith, Bool-cases, Text, codes, text_eq, nat_eq, Outcome-cases,
}
use garden_linux.PortPool.{PortPool, PortError}
use garden_linux.PortPool as Ports
use garden_linux.Container.{
  Host, LinuxContainer, born, active, stopped, set_grace_time, set_state, register_event, add_port,
  add_net_in, start, cleanup, stop,
}
use garden_linux.Container.Mappings.{net_in, map_port, net_out}
use garden_linux.Container.Properties.{set_property, remove_property}
use garden_linux.Container.Limiting.{limit_memory, limit_cpu, limit_disk, limit_bandwidth, on_oom}
use garden_linux.Container.Calls.{
  Call, starts, cleans_up, runs_out, stops, maps, lets_out, sets, removes, limits_memory,
  limits_cpu, sets_grace_time, limits_disk, limits_bandwidth, runs, after, calls,
}
use garden_linux.Container.Processes.{ProcessSpec, run_process}

abbrev pub IsState : Text → Type 0
IsState s = (s ≡ born) ⊎ (s ≡ active) ⊎ (s ≡ stopped)

module _ {h : Host} where
  -- What no call changes, and what each call keeps.
  pub record Keeps (c c' : LinuxContainer h) : Type 0 where
    pub id : c'.spec.id ≡ c.spec.id
    pub handle : c'.spec.handle ≡ c.spec.handle
    pub network : c'.spec.resources.network ≡ c.spec.resources.network
    pub bridge : c'.spec.resources.bridge ≡ c.spec.resources.bridge
    pub state : IsState c.spec.state → IsState c'.spec.state
    pub events : (new : List Text) × (c'.spec.events ≡ c.spec.events ++ new)
    pub ports : (new : List ℕ) × (c'.spec.resources.ports ≡ c.spec.resources.ports ++ new)

  Keeps-refl : (c : LinuxContainer h) → Keeps c c
  Keeps-refl c = record {
    id = refl;
    handle = refl;
    network = refl;
    bridge = refl;
    state = λ s. s;
    events = ([], sym (append-nil c.spec.events));
    ports = ([], sym (append-nil c.spec.resources.ports));
  }

  Keeps-trans : (a b c : LinuxContainer h) → Keeps a b → Keeps b c → Keeps a c
  Keeps-trans a b c x y = record {
    id = y.id ∙ x.id;
    handle = y.handle ∙ x.handle;
    network = y.network ∙ x.network;
    bridge = y.bridge ∙ x.bridge;
    state = λ s. y.state (x.state s);
    events = (
      x.events.0 ++ y.events.0,
      ground (arith, x.events.1, y.events.1, append_assoc a.spec.events x.events.0 y.events.0),
    );
    ports = (
      x.ports.0 ++ y.ports.0,
      ground (arith, x.ports.1, y.ports.1, append_assoc a.spec.resources.ports x.ports.0 y.ports.0),
    );
  }

  set_state-Keeps : (s : Text) (c : LinuxContainer h) → IsState s → Keeps c (set_state s c)
  unfolding set_state
  set_state-Keeps s c i = record {
    id = refl;
    handle = refl;
    network = refl;
    bridge = refl;
    state = λ _. i;
    events = ([], sym (append-nil c.spec.events));
    ports = ([], sym (append-nil c.spec.resources.ports));
  }

  register_event-Keeps : (e : Text) (c : LinuxContainer h) → Keeps c (register_event e c)
  unfolding register_event
  register_event-Keeps e c = record {
    id = refl;
    handle = refl;
    network = refl;
    bridge = refl;
    state = λ s. s;
    events = (e ∷ [], refl);
    ports = ([], sym (append-nil c.spec.resources.ports));
  }

  start_cases :
      (c : LinuxContainer h) (k : h.Kernel)
      → ((start c k).0 ≡ c) ⊎ ((start c k).0 ≡ set_state active c)
  unfolding start
  start_cases c k = ground arith

  stop_cases :
      (kill : Bool) (c : LinuxContainer h) (k : h.Kernel)
      → ((stop kill c k).0 ≡ c) ⊎ ((stop kill c k).0 ≡ set_state stopped c)
  unfolding stop cleanup
  stop_cases kill c k = ground arith

  start-Keeps : (c : LinuxContainer h) (k : h.Kernel) → Keeps c (start c k).0
  start-Keeps c k = elim (start_cases c k) [
    | inl same ↦ rw same (Keeps-refl c)
    | inr on ↦ rw on (set_state-Keeps active c (inr (inl refl)))
  ]

  stop-Keeps : (kill : Bool) (c : LinuxContainer h) (k : h.Kernel) → Keeps c (stop kill c k).0
  stop-Keeps kill c k = elim (stop_cases kill c k) [
    | inl same ↦ rw same (Keeps-refl c)
    | inr off ↦ rw off (set_state-Keeps stopped c (inr (inr refl)))
  ]

  -- An update of other fields.
  same-Keeps :
      (c c' : LinuxContainer h)
      → c'.spec.id ≡ c.spec.id
      → c'.spec.handle ≡ c.spec.handle
      → c'.spec.resources ≡ c.spec.resources
      → c'.spec.state ≡ c.spec.state
      → c'.spec.events ≡ c.spec.events
      → Keeps c c'
  same-Keeps c c' id handle resources state events = record {
    id = id;
    handle = handle;
    network = ap (λ r. r.network) resources;
    bridge = ap (λ r. r.bridge) resources;
    state = λ s. rw state s;
    events = ([], events ∙ sym (append-nil c.spec.events));
    ports = ([], ap (λ r. r.ports) resources ∙ sym (append-nil c.spec.resources.ports));
  }

  map_port-Keeps :
      (a b : ℕ) (c : LinuxContainer h) (k : h.Kernel)
      → Keeps c (map_port a b c k).0 × ((map_port a b c k).0.spec.resources ≡ c.spec.resources)
  unfolding map_port add_net_in
  map_port-Keeps a b c k = (
    same-Keeps c _ (ground arith) (ground arith) (ground arith) (ground arith) (ground arith),
    ground arith,
  )

  add_port-Keeps : (port : ℕ) (c : LinuxContainer h) → Keeps c (add_port port c)
  unfolding add_port
  add_port-Keeps port c = record {
    id = refl;
    handle = refl;
    network = refl;
    bridge = refl;
    state = λ s. s;
    events = ([], sym (append-nil c.spec.events));
    ports = (port ∷ [], refl);
  }

  net_in-Keeps :
      (a b : ℕ) (c : LinuxContainer h) (p : PortPool) (k : h.Kernel)
      → Keeps c (net_in a b c p k).1.0
  unfolding net_in
  net_in-Keeps a b c p k = elim (Bool-cases (a == 0)) [
    | inr given ↦ rw (given, net_in) (map_port-Keeps a b c k).0
    | inl any ↦ elim (Outcome-cases (Ports.acquire p)) [
      | inl ((port, p'), got) ↦
          rw (any, got, net_in)
            (Keeps-trans c (add_port port c) _ (add_port-Keeps port c)
              (map_port-Keeps port b (add_port port c) k).0)
      | inr (inl (e, none_left)) ↦ rw (any, none_left, net_in) (Keeps-refl c)
      | inr (inr stuck) ↦ rw (any, stuck, net_in) (Keeps-refl c)
    ]
  ]

  limit_memory-Keeps :
      (n : ℕ) (c : LinuxContainer h) (k : h.Kernel) → Keeps c (limit_memory n c k).0
  unfolding limit_memory
  limit_memory-Keeps n c k =
      same-Keeps c _ (ground arith) (ground arith) (ground arith) (ground arith) (ground arith)

  limit_cpu-Keeps : (n : ℕ) (c : LinuxContainer h) (k : h.Kernel) → Keeps c (limit_cpu n c k).0
  unfolding limit_cpu
  limit_cpu-Keeps n c k =
      same-Keeps c _ (ground arith) (ground arith) (ground arith) (ground arith) (ground arith)

  limit_disk-Keeps :
      (d : h.Disk) (c : LinuxContainer h) (k : h.Kernel) → Keeps c (limit_disk d c k).0
  unfolding limit_disk
  limit_disk-Keeps d c k =
      same-Keeps c _ (ground arith) (ground arith) (ground arith) (ground arith) (ground arith)

  limit_bandwidth-Keeps :
      (b : h.Bandwidth) (c : LinuxContainer h) (k : h.Kernel) → Keeps c (limit_bandwidth b c k).0
  unfolding limit_bandwidth
  limit_bandwidth-Keeps b c k =
      same-Keeps c _ (ground arith) (ground arith) (ground arith) (ground arith) (ground arith)

  net_out-Keeps : (r : h.NetOut) (c : LinuxContainer h) (k : h.Kernel) → Keeps c (net_out r c k).0
  unfolding net_out
  net_out-Keeps r c k =
      same-Keeps c _ (ground arith) (ground arith) (ground arith) (ground arith) (ground arith)

  set_property-Keeps : (key v : Text) (c : LinuxContainer h) → Keeps c (set_property key v c)
  unfolding set_property
  set_property-Keeps key v c = same-Keeps c _ refl refl refl refl refl

  remove_property-Keeps : (key : Text) (c : LinuxContainer h) → Keeps c (remove_property key c).0
  unfolding remove_property
  remove_property-Keeps key c =
      same-Keeps c _ (ground arith) (ground arith) (ground arith) (ground arith) (ground arith)

  run_process-Keeps :
      (s : ProcessSpec) (c : LinuxContainer h) (k : h.Kernel) → Keeps c (run_process s c k).0
  unfolding run_process
  run_process-Keeps s c k =
      same-Keeps c _ (ground arith) (ground arith) (ground arith) (ground arith) (ground arith)

  after-Keeps :
      (x : Call h) (c : LinuxContainer h) (p : PortPool) (k : h.Kernel) → Keeps c (after x c p k).0
  unfolding after cleanup on_oom set_grace_time
  after-Keeps starts c p k = start-Keeps c k
  after-Keeps cleans_up c p k = Keeps-refl c
  after-Keeps runs_out c p k =
      Keeps-trans c (register_event (codes "out of memory") c) _
        (register_event-Keeps (codes "out of memory") c)
        (stop-Keeps true (register_event (codes "out of memory") c) k)
  after-Keeps (stops kill) c p k = stop-Keeps kill c k
  after-Keeps (maps a b) c p k = net_in-Keeps a b c p k
  after-Keeps (lets_out r) c p k = net_out-Keeps r c k
  after-Keeps (sets key v) c p k = set_property-Keeps key v c
  after-Keeps (removes key) c p k = remove_property-Keeps key c
  after-Keeps (limits_memory n) c p k = limit_memory-Keeps n c k
  after-Keeps (limits_cpu n) c p k = limit_cpu-Keeps n c k
  after-Keeps (sets_grace_time n) c p k = same-Keeps c _ refl refl refl refl refl
  after-Keeps (limits_disk d) c p k = limit_disk-Keeps d c k
  after-Keeps (limits_bandwidth b) c p k = limit_bandwidth-Keeps b c k
  after-Keeps (runs s) c p k = run_process-Keeps s c k

  -- Any calls of a container's methods, whatever each returns, keep its id, its handle, its
  -- network and its bridge; its state stays one of the three; and its events and its ports only
  -- grow at the end.
  pub calls-Keeps :
      (xs : List (Call h)) (c : LinuxContainer h) (p : PortPool) (k : h.Kernel)
      → Keeps c (calls xs c p k).0
  unfolding calls
  calls-Keeps [] c p k = Keeps-refl c
  calls-Keeps (x ∷ xs) c p k =
      let (c', p', k') = after x c p k in
      Keeps-trans c c' _ (after-Keeps x c p k) (calls-Keeps xs c' p' k')
