-- ===== src/Names.antt =====
-- The names made from a counter: container ids (`generateContainerIDs` of
-- resource_pool/resource_pool.go) and bridge names (network/bridgemgr/bridge_name_generator.go).
-- A generator starts at the time in nanoseconds and counts up, one for each name; the counter is
-- an int64 that is not negative and is taken not to reach 2 ^ 63.
pub mod Distinct
mod Tests
use garden_linux.Common.{
  ℕ, zero, suc, ◌+◌, ◌-◌, ◌*◌, ◌/◌, ◌%◌, ◌^◌, List, [], ◌∷◌, ◌++◌, ltb, if◌then◌else◌, length, Text,
}

abbrev pub u64_mod : ℕ
u64_mod = 2 ^ 64

-- `strconv.AppendInt(…, d, 32)` for one digit: 0-9, then a-v.
pub digit : ℕ → ℕ
digit d = if ltb d 10 then b'0' + d else b'a' + (d - 10)

-- `(num >> (55-(i+1)*5)) & 31`. The shift is a uint and wraps around; a shift of 64 or more
-- leaves 0.
pub group : ℕ → ℕ → ℕ
group num i =
    let shift = (55 + u64_mod - (i + 1) * 5 % u64_mod) % u64_mod in
    if ltb shift 64 then num / 2 ^ shift % 32 else 0

-- `for i = …; i < …; i++`, by the rounds left.
pub random_part : ℕ → ℕ → ℕ → Text
unfolding digit group
random_part zero i num = []
random_part (suc rounds) i num = digit (group num i) ∷ random_part rounds (i + 1) num

unfoldable pub container_id : ℕ → Text
unfolding random_part
container_id num = random_part 11 0 num

-- `uint(15 - len(prefix))`.
pub rand_part_len : Text → ℕ
rand_part_len prefix = (15 + u64_mod - length prefix) % u64_mod

pub record BridgeNameGenerator : Type 0 where
  pub prefix : Text
  pub bridge_num : ℕ

-- The name that the channel delivers next, with the prefix, and the generator after it.
unfoldable pub bridge_name : Text → ℕ → Text
unfolding random_part rand_part_len
bridge_name prefix num = prefix ++ random_part (rand_part_len prefix) 0 num

unfoldable pub generate : BridgeNameGenerator → Text × BridgeNameGenerator
generate g = (bridge_name g.prefix g.bridge_num, record g { bridge_num = g.bridge_num + 1 })
