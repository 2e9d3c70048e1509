-- ===== src/Configure/Configured.antt =====
-- What the network looks like once network/configure.go has succeeded.
use garden_linux.Common.{ℕ, ◌≡◌, ◌≢◌, true, none, some, ok, text_eq, nat_eq, ap, ◌∙◌, codes}
use garden_linux.Subnets.Address.{IpNet}
use garden_linux.Configure.Steps.{
  configure_loopback_intf-eq-ok, configure_container_intf-eq-ok, and_then-eq-ok, checked-eq-ok,
  configure_bridge_intf-eq-ok, configure_veth_pair-eq-ok, configure_host_intf-eq-ok,
}
use garden_linux.Configure.{
  set_ns_failed_error, mtu_error, unwrapped, link_up_error, configure_link_error,
  configure_default_gw_error, configure_bridge_intf, configure_veth_pair, configure_host_intf,
  configure_host, find_link, configure_loopback_intf, configure_container_intf, configure_container,
  container, loopback, loopback_ip, loopback_net, ContainerConfig, Devices, HostConfig, found,
}
use garden_linux.Configure.Semantics.{Semantics, at-same, at-true, at-other}

module _ (d : Devices) (sem : Semantics d) where
  host_view :
      (b h c : d.Intf) (mtu pid : ℕ) (t2 t3 t4 t5 t : d.System)
      → d.set_mtu h mtu t2 ≡ (t3, none)
      → d.add_to_bridge b h t3 ≡ (t4, none)
      → d.set_up h t4 ≡ (t5, none)
      → d.set_ns c pid t5 ≡ (t, none)
      → let net = sem.view t in
        (net.up h ≡ true)
        × (net.mtu h ≡ mtu)
        × (net.master h ≡ some b)
        × (net.pid c ≡ some pid)
        × ((sem.view t2).up b ≡ true → net.up b ≡ true)
  host_view b h c mtu pid t2 t3 t4 t5 t mtu_set added host_up moved =
      let after_ns = sem.set_ns_law c pid t5 t moved in
      let after_up = sem.set_up_law h t4 t5 host_up in
      let after_bridge = sem.add_to_bridge_law b h t3 t4 added in
      let after_mtu = sem.set_mtu_law h mtu t2 t3 mtu_set in
      (
        ap (λ n. n.up h) after_ns
            ∙ ap (λ n. n.up h) after_up
            ∙ at-same sem.same h true (sem.view t4).up,
        ap (λ n. n.mtu h) after_ns
            ∙ ap (λ n. n.mtu h) after_up
            ∙ ap (λ n. n.mtu h) after_bridge
            ∙ ap (λ n. n.mtu h) after_mtu
            ∙ at-same sem.same h mtu (sem.view t2).mtu,
        ap (λ n. n.master h) after_ns
            ∙ ap (λ n. n.master h) after_up
            ∙ ap (λ n. n.master h) after_bridge
            ∙ at-same sem.same h (some b) (sem.view t3).master,
        ap (λ n. n.pid c) after_ns ∙ at-same sem.same c (some pid) (sem.view t5).pid,
        λ bridge_up.
            ap (λ n. n.up b) after_ns
            ∙ ap (λ n. n.up b) after_up
            ∙ at-true sem.same h b (sem.view t4).up
                (ap (λ n. n.up b) after_bridge ∙ ap (λ n. n.up b) after_mtu ∙ bridge_up),
      )

  -- Suppose that a call on the devices without an error sets its own field of the network and no
  -- other, and that a new pair of interfaces leaves the others as they were. Then a
  -- `ConfigureHost` that succeeds has found the bridge by its configured name, brought it up and
  -- created one pair under the two configured names, host name first; and after it the first end
  -- of that pair is up, with the configured mtu, and a slave of that bridge, the second end is in
  -- the namespace of the configured process, and the bridge is up if it is neither of the ends.
  pub configure_host-ok :
      (config : HostConfig) (s t : d.System)
      → configure_host d config s ≡ (t, ok tt)
      → let net = sem.view t in
        (b : d.Intf) × (h : d.Intf) × (c : d.Intf) × (t1 : d.System) × (t2 : d.System)
        × (d.interface_by_name config.bridge_name s ≡ found b)
        × (d.set_up b s ≡ (t1, none))
        × (d.create_veth config.host_intf config.container_intf t1 ≡ (t2, ok (h, c)))
        × (net.up h ≡ true)
        × (net.mtu h ≡ config.mtu)
        × (net.master h ≡ some b)
        × (net.pid c ≡ some config.container_pid)
        × (b ≢ h → b ≢ c → net.up b ≡ true)
  unfolding garden_linux.Configure.and_then configure_host
  configure_host-ok config s t given =
      let (t1, b, bridged, rest) =
        and_then-eq-ok d
          (configure_bridge_intf d config.bridge_name config.bridge_ip config.subnet s) _ t tt
          given in
      let (named, bridge_up) =
        configure_bridge_intf-eq-ok d config.bridge_name config.bridge_ip config.subnet b s t1
          bridged in
      let (t2, ends, paired, rest2) =
        and_then-eq-ok d (configure_veth_pair d config.host_intf config.container_intf t1) _ t tt
          rest in
      let created =
        configure_veth_pair-eq-ok d config.host_intf config.container_intf ends t1 t2 paired in
      let (t5, _, hosted, last) =
        and_then-eq-ok d (configure_host_intf d ends.0 b config.mtu t2) _ t tt rest2 in
      let (t3, t4, mtu_set, added, host_up) =
        configure_host_intf-eq-ok d ends.0 b config.mtu t2 t5 hosted in
      let moved =
        checked-eq-ok d (λ e. set_ns_failed_error e ends.1 config.container_pid)
          (d.set_ns ends.1 config.container_pid t5) t last in
      let (up, mtu, master, pid, keeps) =
        host_view b ends.0 ends.1 config.mtu config.container_pid t2 t3 t4 t5 t mtu_set added
          host_up moved in
      let bridge_is_up =
        ap (λ n. n.up b) (sem.set_up_law b s t1 bridge_up)
        ∙ at-same sem.same b true (sem.view s).up in
      (
        b,
        ends.0,
        ends.1,
        t1,
        t2,
        named,
        bridge_up,
        created,
        up,
        mtu,
        master,
        pid,
        λ not_host not_container. keeps (
            sem.create_veth_law config.host_intf config.container_intf t1 t2 ends created b not_host
              not_container
            ∙ bridge_is_up),
      )

  container_view :
      (i : d.Intf) (ip gateway mtu : ℕ) (subnet : IpNet) (t2 t3 t4 t5 t : d.System)
      → d.add_ip i ip subnet t2 ≡ (t3, none)
      → d.set_up i t3 ≡ (t4, none)
      → d.add_default_gw i gateway t4 ≡ (t5, none)
      → d.set_mtu i mtu t5 ≡ (t, none)
      → let net = sem.view t in
        (net.address i ≡ some (ip, subnet))
        × (net.up i ≡ true)
        × (net.gateway i ≡ some gateway)
        × (net.mtu i ≡ mtu)
        × ((lo : d.Intf)
            → ((sem.view t2).up lo ≡ true → net.up lo ≡ true)
              × (i ≢ lo → net.address lo ≡ (sem.view t2).address lo))
  container_view i ip gateway mtu subnet t2 t3 t4 t5 t addressed up routed sized =
      let after_mtu = sem.set_mtu_law i mtu t5 t sized in
      let after_gw = sem.add_default_gw_law i gateway t4 t5 routed in
      let after_up = sem.set_up_law i t3 t4 up in
      let after_ip = sem.add_ip_law i ip subnet t2 t3 addressed in
      (
        ap (λ n. n.address i) after_mtu
            ∙ ap (λ n. n.address i) after_gw
            ∙ ap (λ n. n.address i) after_up
            ∙ ap (λ n. n.address i) after_ip
            ∙ at-same sem.same i (some (ip, subnet)) (sem.view t2).address,
        ap (λ n. n.up i) after_mtu
            ∙ ap (λ n. n.up i) after_gw
            ∙ ap (λ n. n.up i) after_up
            ∙ at-same sem.same i true (sem.view t3).up,
        ap (λ n. n.gateway i) after_mtu
            ∙ ap (λ n. n.gateway i) after_gw
            ∙ at-same sem.same i (some gateway) (sem.view t4).gateway,
        ap (λ n. n.mtu i) after_mtu ∙ at-same sem.same i mtu (sem.view t5).mtu,
        λ lo. (
          λ lo_up.
              ap (λ n. n.up lo) after_mtu
              ∙ ap (λ n. n.up lo) after_gw
              ∙ ap (λ n. n.up lo) after_up
              ∙ at-true sem.same i lo (sem.view t3).up (ap (λ n. n.up lo) after_ip ∙ lo_up),
          λ ne.
              ap (λ n. n.address lo) after_mtu
              ∙ ap (λ n. n.address lo) after_gw
              ∙ ap (λ n. n.address lo) after_up
              ∙ ap (λ n. n.address lo) after_ip
              ∙ at-other sem.same i lo (some (ip, subnet)) (sem.view t2).address ne,
        ),
      )

  loopback_view :
      (lo : d.Intf) (s t1 t2 : d.System)
      → d.add_ip lo loopback_ip loopback_net s ≡ (t1, none)
      → d.set_up lo t1 ≡ (t2, none)
      → ((sem.view t2).up lo ≡ true) × ((sem.view t2).address lo ≡ some (loopback_ip, loopback_net))
  loopback_view lo s t1 t2 addressed up = (
    ap (λ n. n.up lo) (sem.set_up_law lo t1 t2 up) ∙ at-same sem.same lo true (sem.view t1).up,
    ap (λ n. n.address lo) (sem.set_up_law lo t1 t2 up)
        ∙ ap (λ n. n.address lo) (sem.add_ip_law lo loopback_ip loopback_net s t1 addressed)
        ∙ at-same sem.same lo (some (loopback_ip, loopback_net)) (sem.view s).address,
  )

  -- Suppose that a call on the devices without an error sets its own field of the network and no
  -- other. Then a `ConfigureContainer` that succeeds has found `lo` by that name, given it
  -- 127.0.0.1/8, brought it up, and then found an interface by the configured container name; and
  -- after it that interface has the configured address, gateway and mtu and is up, `lo` is up and,
  -- if it is another interface, has 127.0.0.1/8, and the host name is the configured one.
  pub configure_container-ok :
      (config : ContainerConfig) (s t : d.System)
      → configure_container d config s ≡ (t, ok tt)
      → let net = sem.view t in
        (lo : d.Intf) × (i : d.Intf) × (t1 : d.System) × (t2 : d.System) × (d.interface_by_name
            (codes "lo")
            s
          ≡ found lo)
        × (d.add_ip lo loopback_ip loopback_net s ≡ (t1, none))
        × (d.set_up lo t1 ≡ (t2, none))
        × (d.interface_by_name config.container_intf t2 ≡ found i)
        × (net.up lo ≡ true)
        × (i ≢ lo → net.address lo ≡ some (loopback_ip, loopback_net))
        × (net.address i ≡ some (config.container_ip, config.subnet))
        × (net.up i ≡ true)
        × (net.gateway i ≡ some config.gateway_ip)
        × (net.mtu i ≡ config.mtu)
        × (net.hostname ≡ config.hostname)
  unfolding garden_linux.Configure.and_then configure_container
  configure_container-ok config s t given =
      let (t2, _, first, rest) = and_then-eq-ok d (configure_loopback_intf d s) _ t tt given in
      let (lo, lo_named, t1, lo_addressed, lo_up) = configure_loopback_intf-eq-ok d s t2 first in
      let (t6, _, second, last) =
        and_then-eq-ok d
          (configure_container_intf d config.container_intf config.container_ip config.gateway_ip
            config.subnet config.mtu t2)
          _ t tt rest in
      let (i, t3, t4, t5, named, addressed, up, routed, sized) =
        configure_container_intf-eq-ok d config.container_intf config.container_ip config.gateway_ip
          config.mtu config.subnet t2 t6 second in
      let after_name =
        sem.set_hostname_law config.hostname t6 t
          (checked-eq-ok d unwrapped (d.set_hostname config.hostname t6) t last) in
      let (address, is_up, gateway, mtu, others) =
        container_view i config.container_ip config.gateway_ip config.mtu config.subnet t2 t3 t4 t5
          t6 addressed up routed sized in
      let (lo_is_up, lo_address) = loopback_view lo s t1 t2 lo_addressed lo_up in
      (
        lo,
        i,
        t1,
        t2,
        lo_named,
        lo_addressed,
        lo_up,
        named,
        ap (λ n. n.up lo) after_name ∙ (others lo).0 lo_is_up,
        λ ne. ap (λ n. n.address lo) after_name ∙ (others lo).1 ne ∙ lo_address,
        ap (λ n. n.address i) after_name ∙ address,
        ap (λ n. n.up i) after_name ∙ is_up,
        ap (λ n. n.gateway i) after_name ∙ gateway,
        ap (λ n. n.mtu i) after_name ∙ mtu,
        ap (λ n. n.hostname) after_name,
      )
