-- ===== src/PortPool/Ownership.antt =====
-- Who holds which port. `held` lists the ports handed out and not yet given back.
use garden_linux.Common.{
  ℕ, zero, suc, ◌+◌, ◌-◌, ◌≤◌, ◌<◌, ◌≡◌, ◌↔◌, ◌&&◌, inl, inr, List, [], ◌∷◌, ◌++◌, leb, ltb,
  if◌then◌else◌, range, count, count-append, count-range, count-range_below, count-range_above,
  erase, count-erase, ok, err, arith, ap, ◌∙◌,
}
use garden_linux.PortPool.{
  State, PortPool, pool_exhausted, port_taken, new, acquire, remove, release, refresh_state,
}
use garden_linux.PortPool.Ports.{slot, remove_cases, count-release, release-start, release-size}
use garden_linux.PortPool.Fill.{new-pool, offset_in}

-- Each port of the range is free once or held once, and no other port is either.
pub record IsShared (p : PortPool) (held : List ℕ) : Type 0 where
  pub bounded : p.start + p.size ≤ 65535
  pub once : (x : ℕ) → count x p.pool + count x held ≡ slot p x

count-rotation :
    (x start size offset : ℕ)
    → offset ≤ size
    → count x (range (start + offset) (size - offset) ++ range start offset)
      ≡ (if leb start x && ltb x (start + size) then 1 else 0)
count-rotation x start size offset h = ground (
  arith,
  count-append x (range (start + offset) (size - offset)) (range start offset),
  count-range x (start + offset) (size - offset),
  count-range_below x (start + offset) (size - offset),
  count-range_above x (start + offset) (size - offset),
  count-range x start offset,
  count-range_below x start offset,
  count-range_above x start offset,
)

-- A new pool owns its whole range, each port once.
pub new-IsShared :
    (start size : ℕ) (state : State) (p : PortPool)
    → start + size ≤ 65535
    → new start size state ≡ ok p
    → IsShared p []
new-IsShared start size state p h e = record {
  bounded = ground (arith, new-pool start size state h);
  once = λ x.
      ground
        (arith, new-pool start size state h, count-rotation x start size (offset_in size state));
}

acquire_ok :
    (p q : PortPool) (port : ℕ)
    → acquire p ≡ ok (port, q)
    → (p.pool ≡ port ∷ q.pool) × (q.start ≡ p.start) × (q.size ≡ p.size)
unfolding acquire
acquire_ok p q port e = ground arith

pub acquire-IsShared :
    (p q : PortPool) (held : List ℕ) (port : ℕ)
    → acquire p ≡ ok (port, q)
    → IsShared p held
    → IsShared q (port ∷ held) × (count port held ≡ 0) × (slot p port ≡ 1)
acquire-IsShared p q held port e s =
    let (front, st, sz) = acquire_ok p q port e in
    (
      record { bounded = omega arith; once = λ x. ground (arith, s.once x, front, st, sz) },
      ground (arith, s.once port, front),
      ground (arith, s.once port, front),
    )

pub remove-IsShared :
    (p q : PortPool) (held : List ℕ) (port : ℕ)
    → remove p port ≡ ok q
    → IsShared p held
    → IsShared q (port ∷ held) × (count port held ≡ 0) × (slot p port ≡ 1)
remove-IsShared p q held port e s = elim (remove_cases p port) [
  | inl (_, failed) ↦ absurd (cc)
  | inr (q', done, st, sz, counts) ↦
      let same : q ≡ q' = cc in
      rw same (
        record { bounded = omega arith; once = λ x. ground (arith, s.once x, counts x, st, sz) },
        ground (arith, s.once port, counts port),
        ground (arith, s.once port, counts port),
      )
]

pub release-IsShared :
    (p : PortPool) (held : List ℕ) (port : ℕ)
    → IsShared p held
    → IsShared (release p port) (erase port held)
release-IsShared p held port s = record {
  bounded = rw (release-start, release-size) s.bounded;
  once = λ x.
      rw (release-start, release-size)
        (ground (
          arith,
          count-release p port x s.bounded,
          s.once x,
          s.once port,
          count-erase port x held,
        ));
}

-- For a pool where each port of the range is free once or held once, `Acquire` fails only when
-- every port of the range is held.
pub acquire_fails :
    (p : PortPool) (held : List ℕ)
    → IsShared p held
    → acquire p ≡ err pool_exhausted
    → (x : ℕ) → count x held ≡ slot p x
unfolding acquire
acquire_fails p held s e x =
    let empty : p.pool ≡ [] = ground arith in ground (arith, s.once x, empty)

-- For a pool where each port of the range is free once or held once, `Remove` fails exactly when
-- the port is held already or lies outside the range.
pub remove_fails :
    (p : PortPool) (held : List ℕ) (port : ℕ)
    → IsShared p held
    → (remove p port ≡ err (port_taken port)) ↔ (count port held ≡ slot p port)
remove_fails p held port s = elim (remove_cases p port) [
  | inl (absent, failed) ↦ (λ _. ground (arith, s.once port), λ _. failed)
  | inr (q, done, _, _, counts) ↦
      (λ e. absurd (cc), λ e. absurd (ground (arith, s.once port, counts port)))
]

-- The clients of a pool: each takes ports by `Acquire` or `Remove`, and may release any number: a
-- port it holds, one that another client holds, one that is free, or one outside the range.
pub data Step : PortPool × List ℕ → PortPool × List ℕ → Type 0 where
  acquires :
      (p q : PortPool) (held : List ℕ) (port : ℕ)
      → acquire p ≡ ok (port, q)
      → Step (p, held) (q, port ∷ held)
  removes :
      (p q : PortPool) (held : List ℕ) (port : ℕ)
      → remove p port ≡ ok q
      → Step (p, held) (q, port ∷ held)
  releases :
      (p : PortPool) (held : List ℕ) (port : ℕ) → Step (p, held) (release p port, erase port held)

pub data Reach (s : PortPool × List ℕ) : PortPool × List ℕ → Type 0 where
  here : Reach s s
  next : {t u : PortPool × List ℕ} → Reach s t → Step t u → Reach s u

Step-IsShared : {t u : PortPool × List ℕ} → Step t u → IsShared t.0 t.1 → IsShared u.0 u.1
Step-IsShared (acquires p q held port e) s = (acquire-IsShared p q held port e s).0
Step-IsShared (removes p q held port e) s = (remove-IsShared p q held port e s).0
Step-IsShared (releases p held port) s = release-IsShared p held port s

Reach-IsShared : {s t : PortPool × List ℕ} → IsShared s.0 s.1 → Reach s t → IsShared t.0 t.1
Reach-IsShared h here = h
Reach-IsShared h (next r st) = Step-IsShared st (Reach-IsShared h r)

-- From a new pool whose range ends by 65535, after any sequence of successful `Acquire` and
-- `Remove` and of `Release` of any port, held, free or outside the range (a released port counts
-- as given back): a port of the range is free once or handed out once, and never both; and a port
-- outside the range is neither free nor handed out.
pub Reach-once :
    (start size : ℕ) (state : State) (p q : PortPool) (held : List ℕ)
    → start + size ≤ 65535
    → new start size state ≡ ok p
    → Reach (p, []) (q, held)
    → (x : ℕ) → count x q.pool + count x held ≡ slot q x
Reach-once start size state p q held h e r =
    (Reach-IsShared (new-IsShared start size state p h e) r).once

acquire_front :
    (p : PortPool) (port : ℕ) (rest : List ℕ)
    → p.pool ≡ port ∷ rest
    → (q : PortPool) × (acquire p ≡ ok (port, q))
unfolding acquire
acquire_front p port rest e = (record p { pool = rest }, ground arith)

range_front : (a n : ℕ) → 0 < n → range a n ≡ a ∷ range (a + 1) (n - 1)
range_front a zero h = absurd (omega arith)
range_front a (suc n) h = ground arith

-- The first port of a pool whose saved offset lies in the range.
new_front :
    (start size : ℕ) (state : State) (r : PortPool)
    → start + size ≤ 65535
    → state.offset < size
    → new start size state ≡ ok r
    → (rest : List ℕ) × (r.pool ≡ (start + state.offset) ∷ rest)
new_front start size state r h k n = (
  range (start + state.offset + 1) (size - state.offset - 1) ++ range start state.offset,
  ground (
    arith,
    new-pool start size state h,
    range_front (start + state.offset) (size - state.offset),
  ),
)

refreshed :
    (p : PortPool) (port : ℕ) (rest : List ℕ)
    → p.pool ≡ port ∷ rest
    → p.start ≤ port
    → port ≤ 65535
    → (refresh_state p).1.offset ≡ port - p.start
unfolding refresh_state
refreshed p port rest e h k = ground arith

-- For a pool where each port of the range is free once or held once, and that has a free port: a
-- pool made anew from the state that `RefreshState` returns hands out next the port that the old
-- pool would have handed out next.
pub acquire-new-refresh_state :
    (p q r : PortPool) (held : List ℕ) (port : ℕ)
    → IsShared p held
    → acquire p ≡ ok (port, q)
    → new p.start p.size (refresh_state p).1 ≡ ok r
    → (r' : PortPool) × (acquire r ≡ ok (port, r'))
acquire-new-refresh_state p q r held port s e n =
    let (front, _, _) = acquire_ok p q port e in
    let inside = (acquire-IsShared p q held port e s).2 in
    let offset = refreshed p port q.pool front (ground arith) (ground (arith, s.bounded)) in
    let (rest, f) = new_front p.start p.size (refresh_state p).1 r s.bounded (ground arith) n in
    acquire_front r port rest (f ∙ ap (λ x. x ∷ rest) (ground arith))
