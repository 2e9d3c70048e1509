-- ===== src/Firewall/Packets.antt =====
-- Which packets `NetOut` lets out: what the inserted rules match, taken together, is what the rule
-- of the caller describes.
use garden_linux.Common.{
  All-append, ℕ, ◌≡◌, refl, ◌∙◌, Bool, true, false, ◌&&◌, ◌||◌, List, [], ◌∷◌, ◌++◌, map, Option,
  none, some, ◌==◌, leb, All, arith, text_eq, nat_eq,
}
use garden_linux.Firewall.Rules.{
  Protocol, all, tcp, icmp, udp, other, NetOutRule, PortRange, IpRange, IcmpControl, SingleRule,
}
use garden_linux.Firewall.Chain.{single_of}
use garden_linux.Firewall.Deciding.{options, with_ports, with_networks, singles}

abbrev pub tt : Unit {0}
tt = record {}

pub record Packet : Type 0 where
  pub protocol : Protocol
  pub destination : ℕ
  pub port : ℕ
  pub icmp_type : ℕ
  pub icmp_code : ℕ

abbrev pub any {ℓ} : {A : Type ℓ} → (A → Bool) → List A → Bool
any f [] = false
any f (x ∷ xs) = f x || any f xs

abbrev pub in_network : Packet → IpRange → Bool
in_network p r = elim r.start [
  | some a ↦ elim r.end [
    | some b ↦ leb a p.destination && leb p.destination b
    | none ↦ p.destination == a
  ]
  | none ↦ elim r.end [ some b ↦ p.destination == b | none ↦ true ]
]

abbrev pub in_ports : Packet → PortRange → Bool
in_ports p r = leb r.start p.port && leb p.port r.end

abbrev pub in_icmp : Packet → IcmpControl → Bool
in_icmp p i = p.icmp_type == i.type && elim i.code [ none ↦ true | some c ↦ p.icmp_code == c ]

-- A constraint that is absent holds of every packet.
abbrev pub unless_absent {ℓ} : {A : Type ℓ} → (A → Bool) → Option A → Bool
unless_absent f none = true
unless_absent f (some a) = f a

abbrev unless_empty {ℓ} : {A : Type ℓ} → (A → Bool) → List A → Bool
unless_empty f [] = true
unless_empty f (x ∷ xs) = any f (x ∷ xs)

abbrev pub of_protocol : Packet → Protocol → Bool
of_protocol p all = true
of_protocol p tcp = elim p.protocol [ tcp ↦ true | _ ↦ false ]
of_protocol p icmp = elim p.protocol [ icmp ↦ true | _ ↦ false ]
of_protocol p udp = elim p.protocol [ udp ↦ true | _ ↦ false ]
of_protocol p (other n) = false

-- What one rule of iptables matches.
abbrev pub admits : Packet → SingleRule → Bool
admits p x =
    (of_protocol p x.protocol && unless_absent (in_icmp p) x.icmps)
    && unless_absent (in_network p) x.networks
    && unless_absent (in_ports p) x.ports

-- What the rule of the caller describes.
abbrev pub allows : NetOutRule → Packet → Bool
allows r p =
    (of_protocol p r.protocol && unless_absent (in_icmp p) r.icmps)
    && unless_empty (in_network p) r.networks
    && unless_empty (in_ports p) r.ports

any-append {ℓ} :
    {A : Type ℓ} (f : A → Bool) (xs ys : List A) → any f (xs ++ ys) ≡ (any f xs || any f ys)
any-append f [] ys = refl
any-append f (x ∷ xs) ys = ground (arith, any-append f xs ys)

any-options {ℓ} :
    {A : Type ℓ} (f : A → Bool) (xs : List A)
    → any (unless_absent f) (options xs) ≡ unless_empty f xs
any-options f [] = refl
any-options {A = A} f (x ∷ xs) = any-somes (x ∷ xs)
  where
    any-somes : (ys : List A) → any (unless_absent f) (map some ys) ≡ any f ys
    any-somes [] = refl
    any-somes (y ∷ ys) = ground (arith, any-somes ys)

any-with_ports :
    (p : Packet) (x : SingleRule) (ps : List (Option PortRange))
    → any (admits p) (with_ports x ps) ≡ (
        (of_protocol p x.protocol && unless_absent (in_icmp p) x.icmps)
        && unless_absent (in_network p) x.networks
        && any (unless_absent (in_ports p)) ps)
any-with_ports p x [] = ground arith
any-with_ports p x (q ∷ ps) = ground (arith, any-with_ports p x ps)

distribute : (a n ns b : Bool) → ((a && n && b) || (a && ns && b)) ≡ (a && (n || ns) && b)
distribute true true ns true = refl
distribute true true true false = refl
distribute true true false false = refl
distribute true false ns b = refl
distribute false n ns b = refl

any-with_networks :
    (p : Packet) (x : SingleRule) (ns : List (Option IpRange)) (ps : List (Option PortRange))
    → any (admits p) (with_networks x ns ps) ≡ (
        (of_protocol p x.protocol && unless_absent (in_icmp p) x.icmps)
        && any (unless_absent (in_network p)) ns
        && any (unless_absent (in_ports p)) ps)
any-with_networks p x [] ps = ground arith
any-with_networks p x (n ∷ ns) ps =
    any-append (admits p) (with_ports (record x { networks = n }) ps) (with_networks x ns ps)
    ∙ rw (any-with_ports p (record x { networks = n }) ps, any-with_networks p x ns ps)
        (distribute (of_protocol p x.protocol && unless_absent (in_icmp p) x.icmps) _ _ _)

pub any-singles : (r : NetOutRule) (p : Packet) → any (admits p) (singles r) ≡ allows r p
unfolding single_of
any-singles r p =
    any-with_networks p (single_of r) (options r.networks) (options r.ports)
    ∙ rw (any-options (in_network p) r.networks, any-options (in_ports p) r.ports)

with_ports-log :
    (x : SingleRule) (ps : List (Option PortRange)) → All (λ y. y.log ≡ x.log) (with_ports x ps)
with_ports-log x [] = tt
with_ports-log x (p ∷ ps) = (refl, with_ports-log x ps)

pub with_networks-log :
    (x : SingleRule) (ns : List (Option IpRange)) (ps : List (Option PortRange))
    → All (λ y. y.log ≡ x.log) (with_networks x ns ps)
with_networks-log x [] ps = tt
with_networks-log x (n ∷ ns) ps =
    All-append (λ y. y.log ≡ x.log) (with_ports (record x { networks = n }) ps)
      (with_networks x ns ps) (with_ports-log (record x { networks = n }) ps)
      (with_networks-log x ns ps)
