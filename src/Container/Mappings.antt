-- ===== src/Container/Mappings.antt =====
-- NetIn and NetOut of linux_container.go: ports that are mapped, and rules for outgoing packets.
use garden_linux.Common.{
  ℕ, true, false, [], ◌∷◌, ◌++◌, none, some, ◌==◌, if◌then◌else◌, ok, err, panic, codes, text_eq,
  nat_eq,
}
use garden_linux.PortPool.{PortPool, PortError}
use garden_linux.PortPool as Ports
use garden_linux.Container.{
  Command, Host, LinuxContainer, Result, failed, failed_port, in_directory, number_entry, add_port,
  add_net_in,
}

module _ {h : Host} where
  net_in_command : ℕ → ℕ → LinuxContainer h → Command
  net_in_command host_port container_port c = record {
    program = in_directory c.spec.container_path (codes "net.sh");
    args = codes "in" ∷ [];
    env =
        number_entry (codes "HOST_PORT=") host_port
        ∷ number_entry (codes "CONTAINER_PORT=") container_port
        ∷ (codes "PATH=" ++ h.path_variable)
        ∷ [];
  }

  -- `NetIn` once the host port is known.
  unfoldable pub map_port : ℕ → ℕ → LinuxContainer h → h.Kernel → Result h (ℕ × ℕ)
  unfolding net_in_command add_net_in
  map_port host_port wanted c k =
      let container_port = if wanted == 0 then host_port else wanted in
      let (k', not_mapped) = h.run (net_in_command host_port container_port c) k in
      elim not_mapped [
        | some e ↦ (c, k', err (failed e))
        | none ↦ (add_net_in host_port container_port c, k', ok (host_port, container_port))
      ]

  -- `NetIn`, with the port pool that containers share.
  unfoldable pub net_in :
      ℕ → ℕ → LinuxContainer h → PortPool → h.Kernel → PortPool × Result h (ℕ × ℕ)
  unfolding map_port add_port
  net_in host_port container_port c p k = elim (host_port == 0) [
    | false ↦ (p, map_port host_port container_port c k)
    | true ↦ elim (Ports.acquire p) [
      | ok (port, p') ↦ (p', map_port port container_port (add_port port c) k)
      | err e ↦ (p, (c, k, err (failed_port e)))
      | panic ↦ (p, (c, k, panic))
    ]
  ]

  unfoldable pub net_out : h.NetOut → LinuxContainer h → h.Kernel → Result h (Unit {0})
  net_out r c k =
      let (k', refused) = h.filter_net_out r k in
      elim refused [
        | some e ↦ (c, k', err (failed e))
        | none ↦
            (record c { spec = record c.spec { net_outs = c.spec.net_outs ++ r ∷ [] } }, k', ok tt)
      ]
