-- ===== src/PortPool.antt =====
-- port_pool/port_pool.go and the record of port_pool/state.go: the pool of host ports.
-- A uint32 is a number below 2 ^ 32 and wraps around. A method returns the new pool.
pub mod Ports
pub mod Fill
pub mod Ownership
mod Tests
use garden_linux.Common.{
  ℕ, zero, suc, ◌+◌, ◌-◌, ◌%◌, ◌^◌, Bool, true, false, ◌||◌, List, [], ◌∷◌, ◌++◌, Option, none,
  some, ltb, leb, ◌==◌, if◌then◌else◌, length, take, drop, replicate, set, Outcome, ok, err, panic,
  ◌>>=◌,
}

abbrev pub u32_mod : ℕ
u32_mod = 2 ^ 32

pub record State : Type 0 where
  pub offset : ℕ

pub record PortPool : Type 0 where
  pub start : ℕ
  pub size : ℕ
  pub pool : List ℕ
  pub state : State

pub data PortError : Type 0 where
  invalid_range : ℕ → ℕ → PortError
  pool_exhausted : PortError
  port_taken : ℕ → PortError

-- `for port := …; port < …; port++ { pool[i] = port; i += 1 }`, by the rounds left. The result is
-- the slice and `i`; a write out of range panics.
pub write_ports : ℕ → ℕ → ℕ → List ℕ → Outcome PortError (List ℕ × ℕ)
write_ports zero port i pool = ok (pool, i)
write_ports (suc rounds) port i pool =
    if ltb i (length pool) then write_ports rounds (port + 1) (i + 1) (set pool i port) else panic

pub new : ℕ → ℕ → State → Outcome PortError PortPool
new start size state =
    let stop = (start + size) % u32_mod in
    let offset = if leb size state.offset then 0 else state.offset in
    let first = (start + offset) % u32_mod in
    if ltb 65535 stop then err (invalid_range start size) else do
      (high, i) ← write_ports (stop - first) first 0 (replicate size 0)
      (pool, _) ← write_ports (first - start) start i high
      ok (record { start = start; size = size; pool = pool; state = record { offset = 0 } })

unfoldable pub acquire : PortPool → Outcome PortError (ℕ × PortPool)
acquire p = elim p.pool [
  | [] ↦ err pool_exhausted
  | port ∷ rest ↦ ok (port, record p { pool = rest })
]

-- The index of the first entry that equals `port`.
unfoldable pub find_index : ℕ → List ℕ → Option ℕ
find_index port [] = none
find_index port (x ∷ xs) =
    if x == port
    then some 0
    else (elim (find_index port xs) [ none ↦ none | some i ↦ some (suc i) ])

unfoldable pub remove : PortPool → ℕ → Outcome PortError PortPool
unfolding find_index
remove p port = elim (find_index port p.pool) [
  | none ↦ err (port_taken port)
  | some idx ↦ ok (record p { pool = take idx p.pool ++ drop (suc idx) p.pool })
]

unfoldable pub contains : ℕ → List ℕ → Bool
contains port [] = false
contains port (x ∷ xs) = x == port || contains port xs

unfoldable pub release : PortPool → ℕ → PortPool
unfolding contains
release p port =
    if ltb port p.start || leb ((p.start + p.size) % u32_mod) port
    then p
    else if contains port p.pool
    then p
    else record p { pool = p.pool ++ port ∷ [] }

offset_of : ℕ → List ℕ → ℕ
offset_of start [] = 0
offset_of start (port ∷ rest) = (port + u32_mod - start) % u32_mod

-- The offset of the next port, kept in the pool and returned.
pub refresh_state : PortPool → PortPool × State
unfolding offset_of
refresh_state p =
    let state : State = record { offset = offset_of p.start p.pool } in
    (record p { state = state }, state)
