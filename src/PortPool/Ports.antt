-- ===== src/PortPool/Ports.antt =====
-- What each method does to the free ports, counted.
use garden_linux.Common.{
  ℕ, zero, suc, ◌+◌, ◌≤◌, ◌≡◌, refl, ◌&&◌, ◌⊎◌, inl, inr, List, [], ◌∷◌, ◌++◌, none, some, ltb, leb,
  ◌==◌, if◌then◌else◌, take, drop, count, count-append, ok, err, arith, Option-cases,
}
use garden_linux.PortPool.{PortPool, port_taken, remove, release, find_index, contains}

pub contains-count : (x : ℕ) (xs : List ℕ) → contains x xs ≡ leb 1 (count x xs)
unfolding contains
contains-count x [] = refl
contains-count x (y ∷ xs) = ground (arith, contains-count x xs)

pub find_index-none : (x : ℕ) (xs : List ℕ) → find_index x xs ≡ none → count x xs ≡ 0
unfolding find_index
find_index-none x [] h = refl
find_index-none x (y ∷ xs) h = ground (arith, find_index-none x xs)

-- Cutting the found index out takes one occurrence away.
pub count-cut :
    (x y : ℕ) (xs : List ℕ) {i : ℕ}
    → find_index x xs ≡ some i
    → count y (take i xs ++ drop (suc i) xs) + (if x == y then 1 else 0) ≡ count y xs
unfolding find_index
count-cut x y [] h = cc
count-cut x y (z ∷ xs) {i = zero} h = ground arith
count-cut x y (z ∷ xs) {i = suc i} h = ground (arith, count-cut x y xs {i = i})

-- A removal succeeds exactly if the port is free.
pub remove_cases :
    (p : PortPool) (port : ℕ)
    → ((count port p.pool ≡ 0) × (remove p port ≡ err (port_taken port)))
      ⊎ ((q : PortPool) × (remove p port ≡ ok q)
          × (q.start ≡ p.start)
          × (q.size ≡ p.size)
          × ((x : ℕ) → count x q.pool + (if port == x then 1 else 0) ≡ count x p.pool))
unfolding remove
remove_cases p port = elim (Option-cases (find_index port p.pool)) [
  | inl e ↦ inl (find_index-none port p.pool e, rw (e, remove))
  | inr (i, e) ↦ inr (
    record p { pool = take i p.pool ++ drop (suc i) p.pool },
    rw (e, remove),
    refl,
    refl,
    λ x. count-cut port x p.pool e,
  )
]

-- Go's test of the range, for a pool whose range does not wrap around.
abbrev pub slot : PortPool → ℕ → ℕ
slot p x = if leb p.start x && ltb x (p.start + p.size) then 1 else 0

pub count-release :
    (p : PortPool) (port x : ℕ)
    → p.start + p.size ≤ 65535
    → count port p.pool ≤ slot p port
    → count x (release p port).pool ≡ (if port == x then slot p x else count x p.pool)
unfolding release
count-release p port x h k =
    ground (arith, contains-count port p.pool, count-append x p.pool (port ∷ []))

pub release-start : (p : PortPool) (port : ℕ) → (release p port).start ≡ p.start
unfolding release
release-start p port = ground arith

pub release-size : (p : PortPool) (port : ℕ) → (release p port).size ≡ p.size
unfolding release
release-size p port = ground arith
