-- ===== src/Configure/Tests.antt =====
-- Devices whose calls set one field each and never fail, and the network they end up with.
use garden_linux.Common.{
  ℕ, ◌≡◌, ◌≢◌, refl, sym, ap, true, false, [], none, some, length, ok, codes, text_eq, nat_eq,
}
use garden_linux.Configure.{
  Devices, found, HostConfig, ContainerConfig, loopback_ip, loopback_net, configure_host,
  configure_container,
}
use garden_linux.Configure.Semantics.{Net, Semantics, at}
use garden_linux.Configure.Configured.{configure_host-ok, configure_container-ok}

-- An interface is a number, and its name any text of that length.
abbrev plain : Devices
plain = record {
  System = Net ℕ;
  Intf = ℕ;
  set_hostname = λ name s. (record s { hostname = name }, none);
  create_veth = λ h c s. (s, ok (1, 3));
  add_ip = λ i ip n s. (record s { address = at nat_eq i (some (ip, n)) s.address }, none);
  add_default_gw = λ i ip s. (record s { gateway = at nat_eq i (some ip) s.gateway }, none);
  set_up = λ i s. (record s { up = at nat_eq i true s.up }, none);
  set_mtu = λ i n s. (record s { mtu = at nat_eq i n s.mtu }, none);
  set_ns = λ i n s. (record s { pid = at nat_eq i (some n) s.pid }, none);
  interface_by_name = λ name s. found (length name);
  add_to_bridge = λ b i s. (record s { master = at nat_eq i (some b) s.master }, none);
}

abbrev plain_semantics : Semantics plain
plain_semantics = record {
  same = nat_eq;
  view = λ s. s;
  set_up_law = λ i s t h. sym (ap (λ x. x.0) h);
  set_mtu_law = λ i n s t h. sym (ap (λ x. x.0) h);
  set_ns_law = λ i n s t h. sym (ap (λ x. x.0) h);
  add_to_bridge_law = λ b i s t h. sym (ap (λ x. x.0) h);
  add_ip_law = λ i ip n s t h. sym (ap (λ x. x.0) h);
  add_default_gw_law = λ i ip s t h. sym (ap (λ x. x.0) h);
  set_hostname_law = λ name s t h. sym (ap (λ x. x.0) h);
  create_veth_law = λ h c s t ends made i not_host not_container. ap (λ x. x.0.up i) (sym made);
}

abbrev down : Net ℕ
down = record {
  up = λ i. false;
  mtu = λ i. 0;
  pid = λ i. none;
  master = λ i. none;
  address = λ i. none;
  gateway = λ i. none;
  hostname = [];
}

abbrev host_config : HostConfig
host_config = record {
  host_intf = codes "w1-0";
  bridge_name = codes "br01";
  bridge_ip = 6;
  container_intf = codes "w1-1";
  container_pid = 42;
  subnet = record { ip = 4; ones = 30 };
  mtu = 1500;
}

abbrev container_config : ContainerConfig
container_config = record {
  hostname = codes "h";
  container_intf = codes "w1-1x";
  container_ip = 5;
  gateway_ip = 6;
  subnet = record { ip = 4; ones = 30 };
  mtu = 1500;
}

host_done : Net ℕ
host_done = (configure_host plain host_config down).0

container_done : Net ℕ
container_done = (configure_container plain container_config down).0

configure_host-ok_example :
    (b : ℕ) × (h : ℕ) × (c : ℕ) × (t1 : Net ℕ) × (t2 : Net ℕ) × (plain.interface_by_name
        (codes "br01")
        down
      ≡ found b)
    × (plain.set_up b down ≡ (t1, none))
    × (plain.create_veth (codes "w1-0") (codes "w1-1") t1 ≡ (t2, ok (h, c)))
    × (host_done.up h ≡ true)
    × (host_done.mtu h ≡ 1500)
    × (host_done.master h ≡ some b)
    × (host_done.pid c ≡ some 42)
    × (b ≢ h → b ≢ c → host_done.up b ≡ true)
unfolding configure_host host_done
configure_host-ok_example = configure_host-ok plain plain_semantics host_config down host_done refl

configure_container-ok_example :
    (lo : ℕ) × (i : ℕ) × (t1 : Net ℕ) × (t2 : Net ℕ) × (plain.interface_by_name (codes "lo") down
      ≡ found lo)
    × (plain.add_ip lo loopback_ip loopback_net down ≡ (t1, none))
    × (plain.set_up lo t1 ≡ (t2, none))
    × (plain.interface_by_name (codes "w1-1x") t2 ≡ found i)
    × (container_done.up lo ≡ true)
    × (i ≢ lo → container_done.address lo ≡ some (loopback_ip, loopback_net))
    × (container_done.address i ≡ some (5, container_config.subnet))
    × (container_done.up i ≡ true)
    × (container_done.gateway i ≡ some 6)
    × (container_done.mtu i ≡ 1500)
    × (container_done.hostname ≡ codes "h")
unfolding configure_container container_done
configure_container-ok_example =
    configure_container-ok plain plain_semantics container_config down container_done refl
