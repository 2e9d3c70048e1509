-- ===== src/Firewall/Rules.antt =====
-- network/iptables/iptables.go: the rules of the packet filter and the arguments of iptables that
-- they become. `net.IP.String` is a parameter.
use garden_linux.Common.{
  ℕ, Bool, true, false, not, List, [], ◌∷◌, ◌++◌, Option, none, some, ◌==◌, if◌then◌else◌, Text,
  codes, text_eq, nat_eq,
}
use garden_linux.Common.Decimal.{decimal}
use garden_linux.Firewall.{Command}

-- `garden.Protocol`; `other` is a number that `protocols` has no entry for.
pub data Protocol : Type 0 where
  all tcp icmp udp : Protocol
  other : ℕ → Protocol

-- `protocols[p]`.
unfoldable pub protocol_name : Protocol → Option Text
protocol_name all = some (codes "all")
protocol_name tcp = some (codes "tcp")
protocol_name icmp = some (codes "icmp")
protocol_name udp = some (codes "udp")
protocol_name (other n) = none

unfoldable pub allows_port : Protocol → Bool
allows_port tcp = true
allows_port udp = true
allows_port _ = false

-- `garden.IPRange`: an address is a number, `none` a nil address.
pub record IpRange : Type 0 where
  pub start : Option ℕ
  pub end : Option ℕ

-- `garden.PortRange`.
pub record PortRange : Type 0 where
  pub start : ℕ
  pub end : ℕ

-- `garden.ICMPControl`.
pub record IcmpControl : Type 0 where
  pub type : ℕ
  pub code : Option ℕ

-- `garden.NetOutRule`.
pub record NetOutRule : Type 0 where
  pub protocol : Protocol
  pub networks : List IpRange
  pub ports : List PortRange
  pub icmps : Option IcmpControl
  pub log : Bool

pub record SingleRule : Type 0 where
  pub protocol : Protocol
  pub networks : Option IpRange
  pub ports : Option PortRange
  pub icmps : Option IcmpControl
  pub log : Bool

pub record Chain : Type 0 where
  pub name : Text
  pub log_chain_name : Text
  pub use_kernel_logging : Bool

unfoldable pub new_global_chain : Text → Chain
new_global_chain name = record { name = name; log_chain_name = []; use_kernel_logging = false }

unfoldable pub new_logging_chain : Text → Bool → Chain
new_logging_chain name use_kernel_logging = record {
  name = name;
  log_chain_name = name ++ codes "-log";
  use_kernel_logging = use_kernel_logging;
}

-- `Type` and `Action` of a rule.
pub data Table : Type 0 where
  unset nat : Table

pub data Action : Type 0 where
  returns source_nat reject drop : Action

unfoldable pub action_name : Action → Text
action_name returns = codes "RETURN"
action_name source_nat = codes "SNAT"
action_name reject = codes "REJECT"
action_name drop = codes "DROP"

pub record Rule : Type 0 where
  pub typ : Table
  pub source : Text
  pub destination : Text
  pub to : Option ℕ
  pub jump : Action

unfoldable pub iptables_command : List Text → Command
iptables_command args = record { path = codes "/sbin/iptables"; args = args }

unfoldable pub build_log_params : Chain → Text → List Text
build_log_params ch log_prefix =
    if ch.use_kernel_logging
    then codes "--jump" ∷ codes "LOG" ∷ codes "--log-prefix" ∷ log_prefix ∷ []
    else codes "--jump"
      ∷ codes "NFLOG"
      ∷ codes "--nflog-prefix"
      ∷ log_prefix
      ∷ codes "--nflog-group"
      ∷ codes "1"
      ∷ []

unfoldable pub table_flags : Table → List Text
table_flags unset = []
table_flags nat = codes "-t" ∷ codes "nat" ∷ []

-- `if value != "" { rule = append(rule, flag, value) }`.
unfoldable pub text_flags : Text → Text → List Text
text_flags flag [] = []
text_flags flag (c ∷ value) = flag ∷ (c ∷ value) ∷ []

module _ (ip_text : ℕ → Text) where
  unfoldable pub to_flags : Option ℕ → List Text
  to_flags none = []
  to_flags (some ip) = codes "--to" ∷ ip_text ip ∷ []

  unfoldable pub flags : Text → Text → Rule → List Text
  unfolding table_flags text_flags to_flags
  flags action chain n =
      (codes "-w" ∷ table_flags n.typ)
      ++ (action ∷ chain ∷ [])
      ++ text_flags (codes "--source") n.source
      ++ text_flags (codes "--destination") n.destination
      ++ (codes "--jump" ∷ action_name n.jump ∷ [])
      ++ to_flags n.to

  unfoldable pub network_flags : Option IpRange → List Text
  network_flags none = []
  network_flags (some r) = elim r.start [
    | some a ↦ elim r.end [
      | some b ↦
          codes "-m"
          ∷ codes "iprange"
          ∷ codes "--dst-range"
          ∷ (ip_text a ++ codes "-" ++ ip_text b)
          ∷ []
      | none ↦ codes "--destination" ∷ ip_text a ∷ []
    ]
    | none ↦ elim r.end [ some b ↦ codes "--destination" ∷ ip_text b ∷ [] | none ↦ [] ]
  ]

unfoldable pub port_flags : Option PortRange → List Text
port_flags none = []
port_flags (some r) =
    if not (r.end == r.start)
    then codes "--destination-port" ∷ (decimal r.start ++ codes ":" ++ decimal r.end) ∷ []
    else codes "--destination-port" ∷ decimal r.start ∷ []

unfoldable pub icmp_flags : Option IcmpControl → List Text
icmp_flags none = []
icmp_flags (some i) = elim i.code [
  | some c ↦ codes "--icmp-type" ∷ (decimal i.type ++ codes "/" ++ decimal c) ∷ []
  | none ↦ codes "--icmp-type" ∷ decimal i.type ∷ []
]

unfoldable pub log_flags : Chain → Bool → List Text
log_flags ch true = codes "--goto" ∷ ch.log_chain_name ∷ []
log_flags ch false = codes "--jump" ∷ codes "RETURN" ∷ []

-- The arguments that `prependSingleRule` gives to iptables, from the name of the protocol on.
unfoldable pub single_params : (ℕ → Text) → Chain → Text → SingleRule → List Text
single_params ip_text ch protocol r =
    (codes "-w" ∷ codes "-I" ∷ ch.name ∷ codes "1" ∷ [])
    ++ (codes "--protocol" ∷ protocol ∷ [])
    ++ network_flags ip_text r.networks
    ++ port_flags r.ports
    ++ icmp_flags r.icmps
    ++ log_flags ch r.log
