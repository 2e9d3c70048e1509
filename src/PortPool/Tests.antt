-- ===== src/PortPool/Tests.antt =====
-- Runs of the port pool, and the theorems at concrete pools.
use garden_linux.Common.{ℕ, ◌+◌, ◌≡◌, refl, List, [], ◌∷◌, count, ok, err, arith, text_eq, nat_eq}
use garden_linux.PortPool.{
  State, PortPool, invalid_range, new, acquire, release, refresh_state, write_ports, contains,
  offset_of,
}
use garden_linux.PortPool.Ports.{slot}
use garden_linux.PortPool.Ownership.{
  IsShared, new-IsShared, acquires, releases, here, next, Reach-once, acquire-new-refresh_state,
  acquire-IsShared,
}

abbrev saved : State
saved = record { offset = 1 }

abbrev three_ports : PortPool
three_ports = record {
  start = 60000;
  size = 3;
  pool = 60001 ∷ 60002 ∷ 60000 ∷ [];
  state = record { offset = 0 };
}

abbrev two_left : PortPool
two_left = record three_ports { pool = 60002 ∷ 60000 ∷ [] }

abbrev none_left : PortPool
none_left = record three_ports { pool = [] }

new_run : new 60000 3 saved ≡ ok three_ports
unfolding new write_ports
new_run = refl

too_large : new 65000 600 saved ≡ err (invalid_range 65000 600)
unfolding new write_ports
too_large = refl

acquire_run : acquire three_ports ≡ ok (60001, two_left)
unfolding acquire
acquire_run = refl

release_run : (release two_left 60001).pool ≡ 60002 ∷ 60000 ∷ 60001 ∷ []
unfolding release contains
release_run = refl

release_foreign : release two_left 59999 ≡ two_left
unfolding release contains
release_foreign = refl

-- Given back, given back again, and a port outside the range.
abbrev given_back : PortPool
given_back = release (release (release two_left 60001) 60001) 59999

Reach-once_example : count 60001 given_back.pool + count 60001 [] ≡ slot given_back 60001
Reach-once_example =
    Reach-once 60000 3 saved three_ports given_back [] (omega arith) new_run
      (next
        (next
          (next (next here (acquires three_ports two_left [] 60001 acquire_run))
            (releases two_left (60001 ∷ []) 60001))
          (releases (release two_left 60001) [] 60001))
        (releases (release (release two_left 60001) 60001) [] 59999))
      60001

three_ports-IsShared : IsShared three_ports []
three_ports-IsShared = new-IsShared 60000 3 saved three_ports (omega arith) new_run

two_left-IsShared : IsShared two_left (60001 ∷ [])
two_left-IsShared =
    (acquire-IsShared three_ports two_left [] 60001 acquire_run three_ports-IsShared).0

all_held : List ℕ
all_held = 60000 ∷ 60002 ∷ 60001 ∷ []

none_left-IsShared : IsShared none_left all_held
unfolding all_held acquire
none_left-IsShared =
    let second =
      (acquire-IsShared two_left (record two_left { pool = 60000 ∷ [] }) (60001 ∷ []) 60002 refl
        two_left-IsShared).0 in
    (acquire-IsShared (record two_left { pool = 60000 ∷ [] }) none_left (60002 ∷ 60001 ∷ []) 60000
      refl second).0

refreshed_pool :
    new 60000 3 (refresh_state two_left).1
    ≡ ok (record three_ports { pool = 60002 ∷ 60000 ∷ 60001 ∷ [] })
unfolding refresh_state offset_of new write_ports
refreshed_pool = refl

acquire-new-refresh_state_example :
    (r' : PortPool) × (acquire (record three_ports { pool = 60002 ∷ 60000 ∷ 60001 ∷ [] })
      ≡ ok (60002, r'))
unfolding acquire
acquire-new-refresh_state_example =
    acquire-new-refresh_state two_left (record two_left { pool = 60000 ∷ [] }) _ (60001 ∷ []) 60002
      two_left-IsShared refl refreshed_pool
