-- ===== src/Container/Snapshots.antt =====
-- Snapshot, Restore and Info of linux_container.go.
use garden_linux.Common.{
  ℕ, ◌%◌, ◌^◌, true, false, List, [], ◌∷◌, Option, none, some, set, Outcome, ok, err, panic, ◌>>=◌,
  Text, text_eq, nat_eq,
}
use garden_linux.Common.Map.{Map}
use garden_linux.Common.Decimal.{decimal, parse_uint}
use garden_linux.PortPool.{PortPool}
use garden_linux.Subnets.Address.{gateway_ip}
use garden_linux.ResourcePool.Snapshots.{NetInSpec, ContainerSnapshot}
use garden_linux.Container.{
  ActiveProcess, Limits, Signaller, Host, Spec, LinuxContainer, Result, ContainerError, failed,
  set_state, register_event,
}
use garden_linux.Container.Mappings.{net_in, net_out}
use garden_linux.Container.Limiting.{limit_memory}
use garden_linux.Container.Processes.{restore_process_id, process_signaller}

abbrev pub Snapshot : Host → Type 0
Snapshot h = ContainerSnapshot (Limits h.Disk h.Bandwidth) ActiveProcess h.NetOut

-- The loop over the active processes: an id that is no number panics. The ids are those that
-- `Run` printed, without a sign, which `strconv.Atoi` would read too.
unfoldable pub process_snapshots : List Text → Outcome ContainerError (List ActiveProcess)
process_snapshots [] = ok []
process_snapshots (p ∷ ps) = do
  rest ← process_snapshots ps
  elim (parse_uint p) [
    | none ↦ panic
    | some pid ↦ ok (record { id = pid % 2 ^ 32; tty = false } ∷ rest)
  ]

module _ {h : Host} where
  -- What `Snapshot` encodes.
  unfoldable pub snapshot : LinuxContainer h → h.Kernel → Outcome ContainerError (Snapshot h)
  unfolding process_snapshots
  snapshot c k = do
    processes ← process_snapshots (h.active_processes k)
    ok (record {
      id = c.spec.id;
      handle = c.spec.handle;
      root_fs_path = c.spec.container_root_fs_path;
      grace_time = c.spec.grace_time;
      state = c.spec.state;
      events = c.spec.events;
      limits = c.spec.limits;
      resources = record {
        user_uid = 0;
        root_uid = c.spec.resources.root_uid;
        network = c.spec.resources.network;
        bridge = c.spec.resources.bridge;
        ports = c.spec.resources.ports;
      };
      processes = processes;
      default_process_signaller = true;
      net_ins = c.spec.net_ins;
      net_outs = c.spec.net_outs;
      properties = c.spec.properties;
      env_vars = c.spec.env;
    })

  unfoldable pub register_events : List Text → LinuxContainer h → LinuxContainer h
  register_events [] c = c
  register_events (e ∷ es) c = register_events es (register_event e c)

  -- The loop over the processes of the snapshot.
  unfoldable pub restore_processes :
      Signaller → List ActiveProcess → LinuxContainer h → h.Kernel → LinuxContainer h × h.Kernel
  unfolding restore_process_id
  restore_processes signaller [] c k = (c, k)
  restore_processes signaller (p ∷ ps) c k =
      restore_processes signaller ps
        (record c { current_process_id = restore_process_id p.id c.current_process_id })
        (h.tracker_restore (decimal p.id) signaller k)

  unfoldable pub restore_net_ins :
      List NetInSpec → LinuxContainer h → PortPool → h.Kernel → PortPool × Result h (Unit {0})
  restore_net_ins [] c p k = (p, (c, k, ok tt))
  restore_net_ins (i ∷ is) c p k =
      let (p', (c', k', mapped)) = net_in i.host_port i.container_port c p k in
      elim mapped [
        | ok _ ↦ restore_net_ins is c' p' k'
        | err e ↦ (p', (c', k', err e))
        | panic ↦ (p', (c', k', panic))
      ]

  unfoldable pub restore_net_outs :
      List h.NetOut → LinuxContainer h → h.Kernel → Result h (Unit {0})
  restore_net_outs [] c k = (c, k, ok tt)
  restore_net_outs (r ∷ rs) c k =
      let (c', k', set) = net_out r c k in
      elim set [
        | ok _ ↦ restore_net_outs rs c' k'
        | err e ↦ (c', k', err e)
        | panic ↦ (c', k', panic)
      ]

  -- `Restore` from the processes on.
  unfoldable pub restore_rest :
      Spec h → LinuxContainer h → PortPool → h.Kernel → PortPool × Result h (Unit {0})
  unfolding restore_processes restore_net_ins restore_net_outs
  restore_rest s c p k =
      let (c₁, k₁) = restore_processes (process_signaller c) s.processes c k in
      elim s.resources.network [
        | none ↦ (p, (c₁, k₁, panic))
        | some network ↦
            let (k₂, not_set_up) =
              h.container_setup s.id s.resources.bridge network.ip network.subnet k₁ in
            elim not_set_up [
              | some e ↦ (p, (c₁, k₂, err (failed e)))
              | none ↦
                  let (p', (c₃, k₃, mapped)) = restore_net_ins s.net_ins c₁ p k₂ in
                  elim mapped [
                    | ok _ ↦ (p', restore_net_outs s.net_outs c₃ k₃)
                    | err e ↦ (p', (c₃, k₃, err e))
                    | panic ↦ (p', (c₃, k₃, panic))
                  ]
            ]
      ]

  -- `Restore` from the limit on memory on.
  unfoldable pub restore_limited :
      Spec h → LinuxContainer h → PortPool → h.Kernel → PortPool × Result h (Unit {0})
  unfolding restore_rest
  restore_limited s c p k = elim s.limits.memory [
    | none ↦ restore_rest s c p k
    | some limit ↦
        let (c', k', limited) = limit_memory limit c k in
        elim limited [
          | ok _ ↦ restore_rest s c' p k'
          | err e ↦ (p, (c', k', err e))
          | panic ↦ (p, (c', k', panic))
        ]
  ]

  unfoldable pub restore_container :
      Spec h → LinuxContainer h → PortPool → h.Kernel → PortPool × Result h (Unit {0})
  unfolding register_events restore_limited
  restore_container s c p k =
      let c₁ = set_state s.state c in
      let c₂ : LinuxContainer h = record c₁ { spec = record c₁.spec { env = s.env } } in
      restore_limited s (register_events s.events c₂) p k

-- `garden.ContainerInfo`; its addresses are not printed.
pub record ContainerInfo : Type 0 where
  pub state : Text
  pub events : List Text
  pub properties : Map Text Text
  pub container_path : Text
  pub process_ids : List Text
  pub mapped_ports : List NetInSpec
  pub container_ip : Option ℕ
  pub host_ip : ℕ
  pub external_ip : ℕ

module _ {h : Host} where
  unfoldable pub info : LinuxContainer h → h.Kernel → Outcome ContainerError ContainerInfo
  info c k = elim c.spec.resources.network [
    | none ↦ panic
    | some network ↦ elim (gateway_ip network.subnet) [
      | none ↦ panic
      | some gateway ↦ ok (record {
        state = c.spec.state;
        events = c.spec.events;
        properties = c.spec.properties;
        container_path = c.spec.container_path;
        process_ids = h.active_processes k;
        mapped_ports = c.spec.net_ins;
        container_ip = network.ip;
        host_ip = gateway;
        external_ip = c.spec.resources.external_ip;
      })
    ]
  ]
