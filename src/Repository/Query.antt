-- ===== src/Repository/Query.antt =====
-- What Query and All return.
use garden_linux.Common.{
  ◌≡◌, ◌↔◌, ◌⊎◌, inl, inr, refl, sym, ap, Bool, true, List, [], ◌∷◌, some, arith, Bool-cases, Text,
  text_beq_iff, text_eq, nat_eq,
}
use garden_linux.Common.Map
use garden_linux.Common.Map.{Map, UniqueKeys}
use garden_linux.Repository.{find_by_handle, query, all}
use garden_linux.Repository.Latest.{Op, run, IsIndexed, run-IsIndexed}

pub Among : {C : Type 0} → C → List C → Type 0
Among c [] = ⊥
Among c (x ∷ xs) = (x ≡ c) ⊎ Among c xs

Stored : {C : Type 0} → C → Map Text C → Type 0
Stored c [] = ⊥
Stored c ((h, x) ∷ m) = (x ≡ c) ⊎ Stored c m

query-Stored :
    {C : Type 0} (filter : C → Bool) (store : Map Text C) (c : C)
    → Among c (query filter store) ↔ (Stored c store × (filter c ≡ true))
unfolding query Among Stored
query-Stored filter [] c = (λ e. absurd e, λ p. absurd p.0)
query-Stored filter ((h, x) ∷ store) c = elim (Bool-cases (filter x)) [
  | inl good ↦ rw (good) (
    λ o. elim o [
      | inl e ↦ (inl e, rw (sym e) good)
      | inr r ↦ let (s, f) = (query-Stored filter store c).0 r in (inr s, f)
    ],
    λ p. elim p.0 [ inl e ↦ inl e | inr s ↦ inr ((query-Stored filter store c).1 (s, p.1)) ],
  )
  | inr bad ↦ rw (bad) (
    λ r. let (s, f) = (query-Stored filter store c).0 r in (inr s, f),
    λ p. elim p.0 [
      | inl e ↦ absurd (cc (p.1, bad, e))
      | inr s ↦ (query-Stored filter store c).1 (s, p.1)
    ],
  )
]

module _ {C : Type 0} (handle : C → Text) where
  pub rest-IsIndexed :
      (h : Text) (x : C) (store : Map Text C)
      → IsIndexed handle ((h, x) ∷ store)
      → IsIndexed handle store
  unfolding IsIndexed Map.lookup
  rest-IsIndexed h x store v = (
    v.0.1,
    λ j d e. ground (arith, v.1 j d, v.0.0, e, Map.has_key-lookup h store, text_beq_iff h j),
  )

  Stored-lookup :
      (store : Map Text C) (c : C)
      → IsIndexed handle store
      → Stored c store ↔ (Map.lookup (handle c) store ≡ some c)
  unfolding Stored IsIndexed Map.lookup
  Stored-lookup [] c v = (λ e. absurd e, λ e. absurd (cc))
  Stored-lookup ((h, x) ∷ store) c v =
      let ih = Stored-lookup store c (rest-IsIndexed h x store v) in
      let own : handle x ≡ h = v.1 h x (ground (arith, text_beq_iff h h)) in
      let absent = Map.has_key-lookup h store in
      ground (
        arith,
        ih.0,
        ih.1,
        own,
        ap handle {x = x} {y = c},
        text_beq_iff h (handle c),
        v.0.0,
        absent,
      )

  -- After any sequence of `Add` and `Delete` on an empty repository, `Query` returns a container
  -- exactly if it passes the filter and `FindByHandle` returns it for its handle, and `All`
  -- returns exactly the containers that `FindByHandle` returns.
  pub query-find_by_handle :
      (ops : List (Op C)) (filter : C → Bool) (c : C)
      → let store = run handle ops [] in
        (Among c (query filter store)
          ↔ ((find_by_handle (handle c) store ≡ some c) × (filter c ≡ true)))
        × (Among c (all store) ↔ (find_by_handle (handle c) store ≡ some c))
  unfolding find_by_handle all IsIndexed Map.lookup
  query-find_by_handle ops filter c =
      let store = run handle ops [] in
      let indexed = run-IsIndexed handle ops [] (tt, λ h d e. absurd (cc)) in
      let (there, back) = Stored-lookup store c indexed in
      let (q, q') = query-Stored filter store c in
      let (a, a') = query-Stored (λ d. true) store c in
      (
        (λ r. (there (q r).0, (q r).1), λ p. q' (back p.0, p.1)),
        (λ r. there (a r).0, λ e. a' (back e, refl)),
      )
