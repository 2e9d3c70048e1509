-- ===== src/Configure.antt =====
-- network/configure.go: the network of a container, once from the host and once from inside; and the
-- errors of network/errors.go. The devices are a record of the calls on them.
pub mod Texts
pub mod Steps
pub mod Semantics
pub mod Configured
mod Tests
use garden_linux.Common.{
  ℕ, ◌+◌, ◌*◌, ◌^◌, Option, none, some, Outcome, ok, err, panic, Text, codes, text_eq, nat_eq,
}
use garden_linux.Subnets.Address.{IpNet}

-- What `InterfaceByName` returns.
pub data Found (Intf : Type 0) : Type 0 where
  found : Intf → Found Intf
  missing : Found Intf
  failed : Text → Found Intf

-- The fields of `NetworkConfigurer`: each call gives the state of the system after it and its error.
pub record Devices : Type 1 where
  pub System : Type 0
  pub Intf : Type 0
  pub set_hostname : Text → System → System × Option Text
  pub create_veth : Text → Text → System → System × Outcome Text (Intf × Intf)
  pub add_ip : Intf → ℕ → IpNet → System → System × Option Text
  pub add_default_gw : Intf → ℕ → System → System × Option Text
  pub set_up : Intf → System → System × Option Text
  pub set_mtu : Intf → ℕ → System → System × Option Text
  pub set_ns : Intf → ℕ → System → System × Option Text
  pub interface_by_name : Text → System → Found Intf
  pub add_to_bridge : Intf → Intf → System → System × Option Text

pub data Role : Type 0 where
  bridge host container loopback : Role

-- network/errors.go: each error with its fields, the cause first.
pub data NetworkError (Intf : Type 0) : Type 0 where
  veth_pair_creation_error : Text → Text → Text → NetworkError Intf
  mtu_error : Text → Intf → ℕ → NetworkError Intf
  set_ns_failed_error : Text → Intf → ℕ → NetworkError Intf
  bridge_detection_error : Text → Text → ℕ → IpNet → NetworkError Intf
  add_to_bridge_error : Text → Intf → Intf → NetworkError Intf
  link_up_error : Text → Intf → Role → NetworkError Intf
  find_link_error : Option Text → Role → Text → NetworkError Intf
  configure_link_error : Text → Role → Intf → ℕ → IpNet → NetworkError Intf
  configure_default_gw_error : Text → Intf → ℕ → NetworkError Intf
  unwrapped : Text → NetworkError Intf

pub record HostConfig : Type 0 where
  pub host_intf : Text
  pub bridge_name : Text
  pub bridge_ip : ℕ
  pub container_intf : Text
  pub container_pid : ℕ
  pub subnet : IpNet
  pub mtu : ℕ

pub record ContainerConfig : Type 0 where
  pub hostname : Text
  pub container_intf : Text
  pub container_ip : ℕ
  pub gateway_ip : ℕ
  pub subnet : IpNet
  pub mtu : ℕ

-- 127.0.0.1/8, as `net.ParseCIDR` takes it apart.
abbrev pub loopback_ip : ℕ
loopback_ip = 127 * 2 ^ 24 + 1

abbrev pub loopback_net : IpNet
loopback_net = record { ip = 127 * 2 ^ 24; ones = 8 }

-- What a method leaves and returns.
abbrev pub Done : Devices → Type 0 → Type 0
Done d A = d.System × Outcome (NetworkError d.Intf) A

abbrev pub tt : Unit {0}
tt = record {}

module _ (d : Devices) where
  -- What a call with a nil error is followed by; another error is returned.
  unfoldable pub and_then : {A B : Type 0} → Done d A → (A → d.System → Done d B) → Done d B
  and_then (s, ok a) rest = rest a s
  and_then (s, err e) rest = (s, err e)
  and_then (s, panic) rest = (s, panic)

  -- `if err := call; err != nil { return wrap(err) }`.
  unfoldable pub checked : (Text → NetworkError d.Intf) → d.System × Option Text → Done d (Unit {0})
  checked wrap (s, none) = (s, ok tt)
  checked wrap (s, some e) = (s, err (wrap e))

  unfoldable pub configure_bridge_intf : Text → ℕ → IpNet → d.System → Done d d.Intf
  unfolding and_then checked
  configure_bridge_intf name ip subnet s = elim (d.interface_by_name name s) [
    | found b ↦ and_then (checked (λ e. link_up_error e b bridge) (d.set_up b s)) λ _ t. (t, ok b)
    | missing ↦ (s, err (bridge_detection_error (codes "look up existing bridge") name ip subnet))
    | failed e ↦ (s, err (bridge_detection_error (codes "look up existing bridge") name ip subnet))
  ]

  unfoldable pub configure_veth_pair : Text → Text → d.System → Done d (d.Intf × d.Intf)
  configure_veth_pair host_name container_name s =
      let (t, created) = d.create_veth host_name container_name s in
      elim created [
        | ok ends ↦ (t, ok ends)
        | err e ↦ (t, err (veth_pair_creation_error e host_name container_name))
        | panic ↦ (t, panic)
      ]

  unfoldable pub configure_host_intf : d.Intf → d.Intf → ℕ → d.System → Done d (Unit {0})
  unfolding and_then checked
  configure_host_intf intf b mtu s =
      and_then (checked (λ e. mtu_error e intf mtu) (d.set_mtu intf mtu s)) λ _ t.
        and_then (checked (λ e. add_to_bridge_error e b intf) (d.add_to_bridge b intf t))
          λ _ u. checked (λ e. link_up_error e intf host) (d.set_up intf u)

  unfoldable pub configure_host : HostConfig → d.System → Done d (Unit {0})
  unfolding and_then checked configure_bridge_intf configure_veth_pair configure_host_intf
  configure_host config s =
      and_then (configure_bridge_intf config.bridge_name config.bridge_ip config.subnet s) λ b t.
        and_then (configure_veth_pair config.host_intf config.container_intf t) λ ends u.
          and_then (configure_host_intf ends.0 b config.mtu u) λ _ v.
            checked (λ e. set_ns_failed_error e ends.1 config.container_pid)
              (d.set_ns ends.1 config.container_pid v)

  -- `if intf, found, err = InterfaceByName(name); !found || err != nil`.
  unfoldable pub find_link : Role → Text → d.System → Done d d.Intf
  find_link role name s = elim (d.interface_by_name name s) [
    | found i ↦ (s, ok i)
    | missing ↦ (s, err (find_link_error none role name))
    | failed e ↦ (s, err (find_link_error (some e) role name))
  ]

  unfoldable pub configure_loopback_intf : d.System → Done d (Unit {0})
  unfolding and_then checked find_link
  configure_loopback_intf s = and_then (find_link loopback (codes "lo") s) λ lo t.
      and_then
        (checked (λ e. configure_link_error e loopback lo loopback_ip loopback_net)
          (d.add_ip lo loopback_ip loopback_net t))
        λ _ u. checked (λ e. link_up_error e lo loopback) (d.set_up lo u)

  unfoldable pub configure_container_intf : Text → ℕ → ℕ → IpNet → ℕ → d.System → Done d (Unit {0})
  unfolding and_then checked find_link
  configure_container_intf name ip gateway_ip subnet mtu s =
      and_then (find_link container name s) λ i t.
        and_then
          (checked (λ e. configure_link_error e container i ip subnet) (d.add_ip i ip subnet t))
          λ _ u. and_then (checked (λ e. link_up_error e i container) (d.set_up i u)) λ _ v.
            and_then
              (checked (λ e. configure_default_gw_error e i gateway_ip)
                (d.add_default_gw i gateway_ip v))
              λ _ w. checked (λ e. mtu_error e i mtu) (d.set_mtu i mtu w)

  unfoldable pub configure_container : ContainerConfig → d.System → Done d (Unit {0})
  unfolding and_then checked configure_loopback_intf configure_container_intf
  configure_container config s = and_then (configure_loopback_intf s) λ _ t.
      and_then
        (configure_container_intf config.container_intf config.container_ip config.gateway_ip
          config.subnet config.mtu t)
        λ _ u. checked unwrapped (d.set_hostname config.hostname u)
