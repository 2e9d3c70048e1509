-- ===== src/Subnets/Tests.antt =====
-- Runs of the subnet pool, and the theorems at concrete pools.
use garden_linux.Common.{
  ℕ, ◌+◌, ◌-◌, ◌*◌, ◌%◌, ◌^◌, ◌≤◌, ◌<◌, ◌≡◌, ◌≢◌, refl, true, false, List, [], ◌∷◌, some, ◌==◌,
  if◌then◌else◌, ok, err, panic, arith, text_eq, nat_eq,
}
use garden_linux.Common.Map
use garden_linux.Common.Map.{Map}
use garden_linux.Subnets.Address.{
  IpNet, size, net_eq, net_beq_iff, next, or_panic, network_ip, gateway_ip, broadcast_ip, overlaps,
  contains,
}
use garden_linux.Subnets.Address.Range.{IsNet}
use garden_linux.Subnets.Errors.{SubnetError, insufficient_subnets}
use garden_linux.Subnets.Selectors.{
  dynamic_subnet, dynamic_ip, select_subnet, select_ip, subnet_exists, ip_exists,
}
use garden_linux.Subnets.Selectors.Subnet.{OnGrid, IsRange, select_subnet-dynamic, IsUsedUp}
use garden_linux.Subnets.Selectors.Host.{select_ip-dynamic}
use garden_linux.Subnets.Pool.{Network, Pool, subnets, acquire, release, remove}
use garden_linux.Subnets.Pool.Separate.{is_usable, total}
use garden_linux.Subnets.Pool.Selected.{IsValid}
use garden_linux.Subnets.Pool.{capacity}
use garden_linux.Subnets.Pool.Acquire.{acquire-IsValid}
use garden_linux.Subnets.Pool.Release.{release-IsValid}
use garden_linux.Subnets.Pool.Remove.{remove_overlapping, release-acquire}

-- 10.254.0.0.
abbrev base : ℕ
base = 10 * 2 ^ 24 + 254 * 2 ^ 16

-- 10.254.0.0/29: two blocks of four.
abbrev range_29 : IpNet
range_29 = record { ip = base; ones = 29 }

abbrev fresh : Pool
fresh = record { allocated = []; dynamic_range = range_29 }

abbrev block : IpNet
block = record { ip = base; ones = 30 }

abbrev first_network : Network
first_network = record { subnet = block; ip = some (base + 2) }

abbrev one_used : Pool
one_used = record { allocated = (block, (base + 2) ∷ []) ∷ []; dynamic_range = range_29 }

acquire_run : acquire fresh dynamic_subnet dynamic_ip ≡ ok (first_network, one_used)
unfolding acquire select_subnet select_ip subnets gateway_ip network_ip broadcast_ip size next
    contains Map.lookup Map.insert
acquire_run = refl

capacity_run : capacity fresh ≡ 2
unfolding capacity size
capacity_run = refl

range_29-IsRange : IsRange range_29
unfolding size
range_29-IsRange = record {
  net = record { aligned = omega arith; fits = omega arith };
  blocks = omega arith;
  block_start = omega arith;
  below_max = omega arith;
}

fresh-IsValid : IsValid fresh
fresh-IsValid = record { range = range_29-IsRange; entries = tt; separate = tt }

one_used-IsValid : IsValid one_used
one_used-IsValid =
    (acquire-IsValid fresh one_used dynamic_subnet dynamic_ip first_network fresh-IsValid tt
      acquire_run).0

acquire-IsValid_example :
    IsValid one_used
    × (ip : ℕ) × (some (base + 2) ≡ some ip)
    × (is_usable block ip ≡ true)
    × (total ip [] ≡ 0)
    × ((x : ℕ) → total x one_used.allocated ≡ total x [] + (if ip == x then 1 else 0))
acquire-IsValid_example =
    acquire-IsValid fresh one_used dynamic_subnet dynamic_ip first_network fresh-IsValid tt
      acquire_run

release_run : release one_used first_network ≡ ok fresh
unfolding release Map.lookup Map.delete size garden_linux.Subnets.Address.net_beq
release_run = refl

release-IsValid_example :
    IsValid fresh
    × (total (base + 2) [] ≡ 0)
    × ((x : ℕ) → total x [] + (if base + 2 == x then 1 else 0) ≡ total x one_used.allocated)
release-IsValid_example =
    release-IsValid one_used fresh block (base + 2) one_used-IsValid release_run

release-acquire_example :
    (r : Pool) × (release one_used first_network ≡ ok r)
    × IsValid r
    × ((x : ℕ) → total x r.allocated ≡ total x [])
release-acquire_example =
    release-acquire fresh one_used dynamic_subnet dynamic_ip first_network fresh-IsValid tt
      acquire_run

select_subnet-dynamic_example :
    ((r : IpNet)
      → select_subnet dynamic_subnet range_29 (block ∷ []) ≡ ok r
      → (r.ip % 4 ≡ 0) × OnGrid range_29 r × (subnet_exists r (block ∷ []) ≡ false))
    × ((x : SubnetError)
        → select_subnet dynamic_subnet range_29 (block ∷ []) ≡ err x
        → (x ≡ insufficient_subnets) × IsUsedUp range_29 (block ∷ []))
    × (select_subnet dynamic_subnet range_29 (block ∷ []) ≢ panic)
select_subnet-dynamic_example = select_subnet-dynamic range_29 (block ∷ []) range_29-IsRange

-- 10.1.1.0/24, apart from the dynamic range.
abbrev static_24 : IpNet
static_24 = record { ip = 10 * 2 ^ 24 + 2 ^ 16 + 2 ^ 8; ones = 24 }

static_24-IsNet : IsNet static_24
unfolding size
static_24-IsNet = omega arith

select_ip-dynamic_example :
    (select_ip dynamic_ip block (base ∷ []) ≢ panic)
    × ((x : SubnetError)
        → select_ip dynamic_ip block (base ∷ []) ≡ err x
        → (b : ℕ) → base ≤ b
        → b < base + size block
        → ip_exists b (base ∷ []) ≡ true)
unfolding size
select_ip-dynamic_example = select_ip-dynamic block (base ∷ []) (omega arith) (omega arith)

abbrev last_block : IpNet
last_block = record { ip = 2 ^ 32 - 4; ones = 30 }

abbrev last_ips : List ℕ
last_ips = (2 ^ 32 - 4) ∷ (2 ^ 32 - 3) ∷ (2 ^ 32 - 2) ∷ (2 ^ 32 - 1) ∷ []

last_full : (b : ℕ) → 2 ^ 32 - 4 ≤ b → b < 2 ^ 32 → ip_exists b last_ips ≡ true
unfolding ip_exists
last_full b lo hi = ground arith

abbrev static_used : Pool
static_used = record {
  allocated = (block, (base + 2) ∷ []) ∷ (static_24, (static_24.ip + 9) ∷ []) ∷ [];
  dynamic_range = range_29;
}

remove_run :
    remove one_used (record { subnet = static_24; ip = some (static_24.ip + 9) }) ≡ ok static_used
unfolding remove Map.lookup Map.insert garden_linux.Subnets.Address.net_beq
remove_run = refl

abbrev static_28 : IpNet
static_28 = record { ip = static_24.ip; ones = 28 }

remove_overlapping_example :
    (q : Pool) × (remove static_used (record { subnet = static_28; ip = some (static_24.ip + 3) })
      ≡ ok q)
    × (Map.lookup static_24 q.allocated ≡ some ((static_24.ip + 9) ∷ []))
    × (Map.lookup static_28 q.allocated ≡ some ((static_24.ip + 3) ∷ []))
unfolding Map.lookup overlaps contains size garden_linux.Subnets.Address.net_beq
remove_overlapping_example =
    remove_overlapping static_used static_28 static_24 (static_24.ip + 3) ((static_24.ip + 9) ∷ [])
      refl refl refl
