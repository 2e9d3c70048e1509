-- ===== src/PortPool/Fill.antt =====
-- What `New` builds.
use Prim.Native.Nat.add
use mathlib.Core.List.{append-nil}
use garden_linux.Common.{
  ℕ, zero, suc, ◌+◌, ◌-◌, ◌%◌, ◌≤◌, ◌<◌, ◌≡◌, refl, ap, ◌∙◌, true, List, [], ◌∷◌, ◌++◌,
  append_assoc, ltb, leb, if◌then◌else◌, length, length-append, length-range, length-replicate,
  range, replicate, set-append, Outcome, ok, ◌>>=◌, arith, lt→ltb,
}
use garden_linux.PortPool.{u32_mod, State, PortPool, PortError, write_ports, new}

-- Writing behind what is written already replaces the entries of `old` one by one.
write_ports_lem :
    (done old rest : List ℕ) (port : ℕ)
    → write_ports (length old) port (length done) (done ++ (old ++ rest))
      ≡ ok (done ++ (range port (length old) ++ rest), length done + length old)
unfolding write_ports
write_ports_lem done [] rest port = ap (λ n. ok (done ++ rest, n)) (omega arith)
write_ports_lem done (x ∷ old) rest port =
    rw (inside, set-append done (old ++ rest) x port)
      (simp (append_assoc, length-append) at
          (write_ports_lem (done ++ port ∷ []) old rest (port + 1))
        ∙ ap (λ n. ok (done ++ (port ∷ (range (port + 1) (length old) ++ rest)), n)) (omega arith))
  where
    inside : ltb (length done) (length (done ++ (x ∷ (old ++ rest)))) ≡ true
    inside = lt→ltb _ _ (omega (arith, length-append done (x ∷ (old ++ rest))))

replicate-add : (n m : ℕ) (a : ℕ) → replicate (n + m) a ≡ replicate n a ++ replicate m a
replicate-add zero m a = ap (λ k. replicate k a) (omega arith)
replicate-add (suc n) m a = rw (add.suc) (ap (λ xs. a ∷ xs) (replicate-add n m a))

write_ports-replicate :
    (done : List ℕ) (n m port : ℕ)
    → write_ports n port (length done) (done ++ replicate (n + m) 0)
      ≡ ok (done ++ (range port n ++ replicate m 0), length done + n)
write_ports-replicate done n m port = rw (replicate-add n m 0) (
    rw (length-replicate {A = ℕ} n 0) at
      (write_ports_lem done (replicate n 0) (replicate m 0) port))

-- The two loops of `New`, over a slice that has room for both.
fill : (size first n start m : ℕ) → Outcome PortError (List ℕ × ℕ)
fill size first n start m = do
  (high, i) ← write_ports n first 0 (replicate size 0)
  write_ports m start i high

fill_lem :
    (size first n start m left : ℕ)
    → n + (m + left) ≡ size
    → fill size first n start m ≡ ok (range first n ++ (range start m ++ replicate left 0), n + m)
unfolding fill
fill_lem size first n start m left e =
    rw (← e, write_ports-replicate [] n (m + left) first, add.zero n)
      (rw (length-range first n) at (write_ports-replicate (range first n) m left start))

abbrev pub offset_in : ℕ → State → ℕ
offset_in size state = if leb size state.offset then 0 else state.offset

-- What `New` returns, in terms of how far each loop runs.
new_rounds :
    (start size : ℕ) (state : State) (left : ℕ)
    → let stop = (start + size) % u32_mod in
      let first = (start + offset_in size state) % u32_mod in
      stop ≤ 65535
      → (stop - first) + ((first - start) + left) ≡ size
      → new start size state
        ≡ ok (record {
          start = start;
          size = size;
          pool = range first (stop - first) ++ (range start (first - start) ++ replicate left 0);
          state = record { offset = 0 };
        })
unfolding new fill
new_rounds start size state left h e = ground (
  arith,
  fill_lem size ((start + offset_in size state) % u32_mod)
      ((start + size) % u32_mod - (start + offset_in size state) % u32_mod) start
      ((start + offset_in size state) % u32_mod - start) left e,
)

-- For a range that ends by 65535, `New` returns the ports of the range in order, from the saved
-- offset on and then from the start; a saved offset outside the range counts as 0.
pub new-pool :
    (start size : ℕ) (state : State)
    → start + size ≤ 65535
    → new start size state
      ≡ ok (record {
        start = start;
        size = size;
        pool =
            range (start + offset_in size state) (size - offset_in size state)
            ++ range start (offset_in size state);
        state = record { offset = 0 };
      })
new-pool start size state h =
    rw (← append-nil (range start (offset_in size state)))
      (ground (arith, new_rounds start size state 0))

-- The check of the range is made modulo 2 ^ 32: a range that ends above 65535 is accepted if its
-- end wraps around to 65535 or less.
pub new_wraps :
    (start size : ℕ) (state : State)
    → start < u32_mod
    → size < u32_mod
    → u32_mod ≤ start + size
    → start + size ≤ u32_mod + 65535
    → (p : PortPool) × (new start size state ≡ ok p) × (p.start ≡ start) × (p.size ≡ size)
new_wraps start size state hs hz lo hi =
    (_, new_rounds start size state left (omega arith) (omega arith), refl, refl)
  where
    left : ℕ
    left =
        size
        - ((start + size) % u32_mod - (start + offset_in size state) % u32_mod)
        - ((start + offset_in size state) % u32_mod - start)
