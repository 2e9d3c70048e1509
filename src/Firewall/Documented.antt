-- ===== src/Firewall/Documented.antt =====
-- The options that the man page of iptables documents, as far as a rule for outgoing packets needs
-- them: how each is written and which packets it matches, apart from how iptables.go writes them.
use garden_linux.Common.{
  ℕ, ◌≡◌, refl, sym, ap, ◌∙◌, Bool, true, ◌&&◌, List, [], ◌∷◌, ◌++◌, append_assoc, Option, none,
  some, ◌==◌, leb, if◌then◌else◌, arith, Text, codes, text_eq, nat_eq, Option-cases, inl, inr,
}
use garden_linux.Common.Decimal.{decimal}
use garden_linux.Firewall.Rules.{
  Protocol, all, tcp, icmp, udp, other, PortRange, IpRange, IcmpControl, SingleRule, protocol_name,
  network_flags, port_flags, icmp_flags,
}
use garden_linux.Firewall.Packets.{
  Packet, admits, of_protocol, in_network, in_ports, in_icmp, unless_absent,
}

pub data Condition : Type 0 where
  protocol_is : Protocol → Condition
  goes_between : ℕ → ℕ → Condition
  goes_to : ℕ → Condition
  port_between : ℕ → ℕ → Condition
  port_is : ℕ → Condition
  icmp_type_is : ℕ → Condition
  icmp_is : ℕ → ℕ → Condition

-- The numbers of protocols are documented too.
abbrev protocol_word : Protocol → Text
protocol_word all = codes "all"
protocol_word tcp = codes "tcp"
protocol_word icmp = codes "icmp"
protocol_word udp = codes "udp"
protocol_word (other n) = decimal n

abbrev pub written : (ℕ → Text) → Condition → List Text
written ip_text (protocol_is q) = codes "--protocol" ∷ protocol_word q ∷ []
written ip_text (goes_between a b) =
    codes "-m" ∷ codes "iprange" ∷ codes "--dst-range" ∷ (ip_text a ++ codes "-" ++ ip_text b) ∷ []
written ip_text (goes_to a) = codes "--destination" ∷ ip_text a ∷ []
written ip_text (port_between a b) =
    codes "--destination-port" ∷ (decimal a ++ codes ":" ++ decimal b) ∷ []
written ip_text (port_is a) = codes "--destination-port" ∷ decimal a ∷ []
written ip_text (icmp_type_is t) = codes "--icmp-type" ∷ decimal t ∷ []
written ip_text (icmp_is t c) = codes "--icmp-type" ∷ (decimal t ++ codes "/" ++ decimal c) ∷ []

abbrev pub holds : Packet → Condition → Bool
holds p (protocol_is q) = of_protocol p q
holds p (goes_between a b) = leb a p.destination && leb p.destination b
holds p (goes_to a) = p.destination == a
holds p (port_between a b) = leb a p.port && leb p.port b
holds p (port_is a) = p.port == a
holds p (icmp_type_is t) = p.icmp_type == t
holds p (icmp_is t c) = p.icmp_type == t && p.icmp_code == c

abbrev pub write_conditions : (ℕ → Text) → List Condition → List Text
write_conditions ip_text [] = []
write_conditions ip_text (c ∷ cs) = written ip_text c ++ write_conditions ip_text cs

-- A rule matches a packet that meets all its conditions.
abbrev pub hold_all : Packet → List Condition → Bool
hold_all p [] = true
hold_all p (c ∷ cs) = holds p c && hold_all p cs

abbrev network_conditions : Option IpRange → List Condition
network_conditions none = []
network_conditions (some r) = elim r.start [
  | some a ↦ elim r.end [ some b ↦ goes_between a b ∷ [] | none ↦ goes_to a ∷ [] ]
  | none ↦ elim r.end [ some b ↦ goes_to b ∷ [] | none ↦ [] ]
]

abbrev port_conditions : Option PortRange → List Condition
port_conditions none = []
port_conditions (some r) =
    if r.end == r.start then port_is r.start ∷ [] else port_between r.start r.end ∷ []

abbrev icmp_conditions : Option IcmpControl → List Condition
icmp_conditions none = []
icmp_conditions (some i) = elim i.code [
  | some c ↦ icmp_is i.type c ∷ []
  | none ↦ icmp_type_is i.type ∷ []
]

-- What one network, one range of ports and one icmp type ask of a packet.
abbrev pub conditions : SingleRule → List Condition
conditions x =
    protocol_is x.protocol
    ∷ (network_conditions x.networks ++ (port_conditions x.ports ++ icmp_conditions x.icmps))

write_conditions-append :
    (ip_text : ℕ → Text) (cs ds : List Condition)
    → write_conditions ip_text (cs ++ ds)
      ≡ write_conditions ip_text cs ++ write_conditions ip_text ds
write_conditions-append ip_text [] ds = refl
write_conditions-append ip_text (c ∷ cs) ds =
    ap (λ ws. written ip_text c ++ ws) (write_conditions-append ip_text cs ds)
    ∙ sym (
        append_assoc (written ip_text c) (write_conditions ip_text cs)
          (write_conditions ip_text ds))

hold_all-append :
    (p : Packet) (cs ds : List Condition) → hold_all p (cs ++ ds) ≡ (hold_all p cs && hold_all p ds)
hold_all-append p [] ds = refl
hold_all-append p (c ∷ cs) ds = ground (arith, hold_all-append p cs ds)

network_flags-written :
    (ip_text : ℕ → Text) (r : Option IpRange)
    → network_flags ip_text r ≡ write_conditions ip_text (network_conditions r)
unfolding network_flags
network_flags-written ip_text none = refl
network_flags-written ip_text (some r) = elim (Option-cases r.start) [
  | inl no_start ↦ elim (Option-cases r.end) [
    | inl no_end ↦ rw (no_start, no_end, network_flags) refl
    | inr (b, e) ↦ rw (no_start, e, network_flags) refl
  ]
  | inr (a, s) ↦ elim (Option-cases r.end) [
    | inl no_end ↦ rw (s, no_end, network_flags) refl
    | inr (b, e) ↦ rw (s, e, network_flags) refl
  ]
]

port_flags-written :
    (ip_text : ℕ → Text) (r : Option PortRange)
    → port_flags r ≡ write_conditions ip_text (port_conditions r)
unfolding port_flags
port_flags-written ip_text none = refl
port_flags-written ip_text (some r) = ground arith

icmp_flags-written :
    (ip_text : ℕ → Text) (i : Option IcmpControl)
    → icmp_flags i ≡ write_conditions ip_text (icmp_conditions i)
unfolding icmp_flags
icmp_flags-written ip_text none = refl
icmp_flags-written ip_text (some i) = elim (Option-cases i.code) [
  | inl no_code ↦ rw (no_code, icmp_flags) refl
  | inr (c, e) ↦ rw (e, icmp_flags) refl
]

protocol_name-word :
    (q : Protocol) (name : Text) → protocol_name q ≡ some name → name ≡ protocol_word q
unfolding protocol_name
protocol_name-word all name h = cc
protocol_name-word tcp name h = cc
protocol_name-word icmp name h = cc
protocol_name-word udp name h = cc
protocol_name-word (other n) name h = absurd (ground (arith, h))

write_conditions-conditions :
    (ip_text : ℕ → Text) (x : SingleRule)
    → write_conditions ip_text (conditions x)
      ≡ written ip_text (protocol_is x.protocol)
        ++ (write_conditions ip_text (network_conditions x.networks)
            ++ (write_conditions ip_text (port_conditions x.ports)
                ++ write_conditions ip_text (icmp_conditions x.icmps)))
write_conditions-conditions ip_text x =
    ap (λ ws. written ip_text (protocol_is x.protocol) ++ ws)
      (write_conditions-append ip_text (network_conditions x.networks)
          (port_conditions x.ports ++ icmp_conditions x.icmps)
        ∙ ap (λ ws. write_conditions ip_text (network_conditions x.networks) ++ ws)
            (write_conditions-append ip_text (port_conditions x.ports) (icmp_conditions x.icmps)))

regroup {ℓ} :
    {A : Type ℓ} (a b c d e : List A) → a ++ b ++ c ++ d ++ e ≡ (a ++ (b ++ (c ++ d))) ++ e
regroup a b c d e = simp append_assoc

-- What iptables.go writes for a rule is what is documented for its conditions.
pub flags-written :
    (ip_text : ℕ → Text) (name : Text) (x : SingleRule) (target : List Text)
    → protocol_name x.protocol ≡ some name
    → (codes "--protocol" ∷ name ∷ [])
        ++ network_flags ip_text x.networks
        ++ port_flags x.ports
        ++ icmp_flags x.icmps
        ++ target
      ≡ write_conditions ip_text (conditions x) ++ target
flags-written ip_text name x target known =
    rw
      (
        protocol_name-word x.protocol name known,
        network_flags-written ip_text x.networks,
        port_flags-written ip_text x.ports,
        icmp_flags-written ip_text x.icmps,
      )
      (regroup (written ip_text (protocol_is x.protocol))
          (write_conditions ip_text (network_conditions x.networks))
          (write_conditions ip_text (port_conditions x.ports))
          (write_conditions ip_text (icmp_conditions x.icmps)) target
        ∙ ap (λ ws. ws ++ target) (sym (write_conditions-conditions ip_text x)))

network-hold_all :
    (p : Packet) (r : Option IpRange)
    → hold_all p (network_conditions r) ≡ unless_absent (in_network p) r
network-hold_all p none = refl
network-hold_all p (some r) = elim (Option-cases r.start) [
  | inl no_start ↦ elim (Option-cases r.end) [
    | inl no_end ↦ rw (no_start, no_end) refl
    | inr (b, e) ↦ rw (no_start, e) (ground arith)
  ]
  | inr (a, s) ↦ elim (Option-cases r.end) [
    | inl no_end ↦ rw (s, no_end) (ground arith)
    | inr (b, e) ↦ rw (s, e) (ground arith)
  ]
]

port-hold_all :
    (p : Packet) (r : Option PortRange)
    → hold_all p (port_conditions r) ≡ unless_absent (in_ports p) r
port-hold_all p none = refl
port-hold_all p (some r) = ground arith

icmp-hold_all :
    (p : Packet) (i : Option IcmpControl)
    → hold_all p (icmp_conditions i) ≡ unless_absent (in_icmp p) i
icmp-hold_all p none = refl
icmp-hold_all p (some i) = elim (Option-cases i.code) [
  | inl no_code ↦ rw no_code (ground arith)
  | inr (c, e) ↦ rw e (ground arith)
]

-- The conditions of a rule hold of the packets that it admits.
pub hold_all-conditions : (p : Packet) (x : SingleRule) → hold_all p (conditions x) ≡ admits p x
hold_all-conditions p x = ground (
  arith,
  hold_all-append p (network_conditions x.networks)
      (port_conditions x.ports ++ icmp_conditions x.icmps),
  hold_all-append p (port_conditions x.ports) (icmp_conditions x.icmps),
  network-hold_all p x.networks,
  port-hold_all p x.ports,
  icmp-hold_all p x.icmps,
)
