-- ===== src/Configure/Texts.antt =====
-- network/errors.go: the texts of the errors of network/configure.go. What fmt prints for a value that
-- is no text and no number is a parameter, as is what it adds for an argument without a verb.
use garden_linux.Common.{ℕ, ◌≡◌, refl, ◌++◌, Option, Text, codes, text_eq, nat_eq}
use garden_linux.Common.Decimal.{decimal}
use garden_linux.Subnets.Address.{IpNet}
use garden_linux.Configure.{
  NetworkError, Role, bridge, host, container, loopback, veth_pair_creation_error, mtu_error,
  set_ns_failed_error, bridge_detection_error, add_to_bridge_error, link_up_error, find_link_error,
  configure_link_error, configure_default_gw_error, unwrapped,
}

pub record Printer (Intf : Type 0) : Type 0 where
  pub name : Intf → Text
  pub intf : Intf → Text
  pub ip : ℕ → Text
  pub net : IpNet → Text
  pub extra : Text → Text

unfoldable pub role_name : Role → Text
role_name bridge = codes "bridge"
role_name host = codes "host"
role_name container = codes "container"
role_name loopback = codes "loopback"

module _ {Intf : Type 0} (p : Printer Intf) where
  unfoldable pub fmt_err : Text → Text
  fmt_err text = codes "network: " ++ text

  unfoldable pub error_text : NetworkError Intf → Text
  unfolding role_name fmt_err
  error_text (veth_pair_creation_error cause host_name container_name) = fmt_err (
      codes "failed to create veth pair with host interface name '"
      ++ host_name
      ++ codes "', container interface name '"
      ++ container_name
      ++ codes "': "
      ++ cause)
  error_text (mtu_error cause i mtu) = fmt_err (
      codes "failed to set interface '"
      ++ p.intf i
      ++ codes "' mtu to "
      ++ decimal mtu
      ++ p.extra cause)
  error_text (set_ns_failed_error cause i pid) = fmt_err (
      codes "failed to move interface "
      ++ p.intf i
      ++ codes " in to pid namespace "
      ++ decimal pid
      ++ codes ": "
      ++ cause)
  error_text (bridge_detection_error cause name ip subnet) = fmt_err (
      codes "failed to find bridge with name '"
      ++ name
      ++ codes "', IP '"
      ++ p.ip ip
      ++ codes "', subnet '"
      ++ p.net subnet
      ++ codes "': "
      ++ cause)
  error_text (add_to_bridge_error cause b slave) = fmt_err (
      codes "failed to add slave "
      ++ p.name slave
      ++ codes " to bridge "
      ++ p.name b
      ++ codes ": "
      ++ cause)
  error_text (link_up_error cause i role) = fmt_err (
      codes "failed to bring "
      ++ role_name role
      ++ codes " link "
      ++ p.name i
      ++ codes " up: "
      ++ cause)
  error_text (find_link_error cause role name) =
      fmt_err (codes "failed to find " ++ role_name role ++ codes " link with name " ++ name)
  error_text (configure_link_error cause role i ip subnet) = fmt_err (
      codes "failed to configure "
      ++ role_name role
      ++ codes " link ("
      ++ p.intf i
      ++ codes ") to IP "
      ++ p.ip ip
      ++ codes ", subnet "
      ++ p.net subnet)
  error_text (configure_default_gw_error cause i ip) = fmt_err (
      codes "failed to set default gateway to IP "
      ++ p.ip ip
      ++ codes " via device "
      ++ p.intf i
      ++ p.extra cause)
  error_text (unwrapped cause) = cause

  -- The text does not say why a link was not found.
  pub error_text-find_link_error :
      (a b : Option Text) (role : Role) (name : Text)
      → error_text (find_link_error a role name) ≡ error_text (find_link_error b role name)
  unfolding error_text
  error_text-find_link_error a b role name = refl
