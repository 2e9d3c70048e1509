-- ===== src/Subnets/Address.antt =====
-- network/subnets/ip_util.go and the address functions of network/subnets/subnets.go.
-- An IPv4 address is the number that its four bytes spell, and a net.IPNet with a mask of `ones`
-- leading ones an address with that number. IPv6 networks are not modelled.
pub mod Range
use garden_linux.Common.{
  ℕ, ◌+◌, ◌-◌, ◌*◌, ◌/◌, ◌%◌, ◌^◌, ◌≡◌, ◌↔◌, refl, Bool, true, false, ◌&&◌, ◌||◌, List, [], ◌∷◌,
  Option, none, some, ◌==◌, if◌then◌else◌, Outcome, ok, panic, Eq, arith,
}

pub record IpNet : Type 0 where
  pub ip : ℕ
  pub ones : ℕ

unfoldable pub net_beq : IpNet → IpNet → Bool
net_beq a b = a.ip == b.ip && a.ones == b.ones

pub net_beq_iff : (a b : IpNet) → (net_beq a b ≡ true) ↔ (a ≡ b)
unfolding net_beq
net_beq_iff a b = ground arith

-- `IpNet.String` prints address and prefix length, so equal texts are equal networks.
instance abbrev pub net_eq : Eq IpNet
net_eq = record { beq = net_beq; beq_iff = net_beq_iff }

-- The number of addresses in a network.
unfoldable pub size : IpNet → ℕ
size n = 2 ^ (32 - n.ones)

-- The four bytes of an address, the last one first.
bytes : ℕ → List ℕ
bytes ip = ip % 256 ∷ ip / 256 % 256 ∷ ip / 256 ^ 2 % 256 ∷ ip / 256 ^ 3 % 256 ∷ []

of_bytes : List ℕ → ℕ
of_bytes [] = 0
of_bytes (b ∷ bs) = b + 256 * of_bytes bs

-- `for i := len(next) - 1; i >= 0; i--`: a byte that wraps around to 0 carries into the one
-- before it.
bump : List ℕ → Option (List ℕ)
bump [] = none
bump (b ∷ bs) =
    let b' = (b + 1) % 256 in
    if b' == 0 then (elim (bump bs) [ none ↦ none | some r ↦ some (b' ∷ r) ]) else some (b' ∷ bs)

abbrev from_bytes : Option (List ℕ) → Option ℕ
from_bytes none = none
from_bytes (some bs) = some (of_bytes bs)

-- `none` is the panic at the maximum address.
unfoldable pub next : ℕ → Option ℕ
unfolding bytes of_bytes bump
next ip = from_bytes (bump (bytes ip))

abbrev pub or_panic {ℓ κ} : {E : Type ℓ} {A : Type κ} → Option A → Outcome E A
or_panic none = panic
or_panic (some a) = ok a

-- `nn & m == ip & m` for the mask m.
unfoldable pub contains : IpNet → ℕ → Bool
unfolding size
contains n ip = n.ip / size n == ip / size n

unfoldable pub overlaps : IpNet → IpNet → Bool
overlaps a b = contains a b.ip || contains b a.ip

unfoldable pub equals : IpNet → IpNet → Bool
equals a b = a.ip == b.ip && a.ones == b.ones

-- `min[i] | ^b` for each byte b of the mask: the host bits are set.
unfoldable pub max : IpNet → ℕ
unfolding size
max n = n.ip / size n * size n + (size n - 1)

unfoldable pub network_ip : IpNet → ℕ
network_ip n = n.ip

unfoldable pub gateway_ip : IpNet → Option ℕ
unfolding next
gateway_ip n = next n.ip

unfoldable pub broadcast_ip : IpNet → ℕ
unfolding max
broadcast_ip n = max n

-- What `net.ParseCIDR` makes of an address and a prefix length: the network, masked.
unfoldable pub masked : IpNet → IpNet
unfolding size
masked n = record n { ip = n.ip / size n * size n }
