-- ===== src/Yarn/Bulk.antt =====
-- `BulkInfo` of YarnBackend.go answers for the nide manager itself and for every other handle through
-- the wrapped backend.
use garden_linux.Common.{
  ℕ, ◌+◌, ◌<◌, ◌≡◌, ◌≢◌, refl, sym, ap, ◌∙◌, Bool, true, false, ◌&&◌, ◌||◌, List, Option, none,
  some, if◌then◌else◌, ltb, Outcome, ok, panic, >>=-eq-ok, arith, lt→ltb, Text, text_beq,
  text_beq_iff, text_eq, nat_eq,
}
use garden_linux.Common.Map.{Map, lookup, has_key, insert, has_key-insert, lookup-insert}
use garden_linux.Yarn.Nide.{LimitTypes, YarnContainer, nm_handler, info}
use garden_linux.Yarn.Server.{RealBackend, YarnBackend, remove_handle, bulk_info, current}
use garden_linux.Yarn.Handles.{one_if, text_beq-sym, occurs, remove_handle-occurs}

pub ok-injective {ℓ κ} :
    {E : Type ℓ} {A : Type κ} {a b : A} → ◌≡◌ {A = Outcome E A} (ok a) (ok b) → a ≡ b
ok-injective h = cc

panic-ne-ok {ℓ κ} : {E : Type ℓ} {A : Type κ} {a : A} → ◌≢◌ {A = Outcome E A} panic (ok a)
panic-ne-ok h = cc

or-false : (b : Bool) → (b || false) ≡ b
or-false true = refl
or-false false = refl

and-false : (b : Bool) → (b && false) ≡ false
and-false true = refl
and-false false = refl

ltb-false : (k : ℕ) → ltb 0 k ≡ false → k ≡ 0
ltb-false k h = ground (arith, h)

ltb-joined :
    (found same known : Bool) (n k : ℕ)
    → n + one_if (found && same) ≡ k
    → (same ≡ true → found ≡ ltb 0 k)
    → ((found && same) || (known && ltb 0 n)) ≡ ((known || same) && ltb 0 k)
ltb-joined true true true n k h f = f refl
ltb-joined true true false n k h f = f refl
ltb-joined true false known n k h f =
    ap (λ x. known && ltb 0 x) (omega arith) ∙ ap (λ y. y && ltb 0 k) (sym (or-false known))
ltb-joined false true known n k h f =
    let none_left : k ≡ 0 = ltb-false k (sym (f refl)) in
    let none_there : n ≡ 0 = omega (arith, none_left) in
    ap (λ x. known && ltb 0 x) none_there
    ∙ and-false known
    ∙ sym (and-false (known || true))
    ∙ ap (λ x. (known || true) && ltb 0 x) (sym none_left)
ltb-joined false false known n k h f =
    ap (λ x. known && ltb 0 x) (omega arith) ∙ ap (λ y. y && ltb 0 k) (sym (or-false known))

module _ {E I C : Type 0} (name : Text) (entry : C → I) where
  -- What the two branches of the test on `found` return.
  abbrev extended : Bool → Option C → Map Text I → Outcome E (Map Text I)
  extended found c entries =
      if found
      then elim c [ none ↦ panic | some x ↦ ok (insert name (entry x) entries) ]
      else ok entries

  extended-has_key :
      (found : Bool) (c : Option C) (entries m : Map Text I)
      → extended found c entries ≡ ok m
      → (h : Text) → has_key h m ≡ ((found && text_beq name h) || has_key h entries)
  extended-has_key false c entries m ran h = ap (has_key h) (ok-injective (sym ran))
  extended-has_key true none entries m ran h = absurd (panic-ne-ok ran)
  extended-has_key true (some x) entries m ran h =
      ap (has_key h) (ok-injective (sym ran)) ∙ has_key-insert name h (entry x) entries

  extended-lookup :
      (x : C) (entries m : Map Text I)
      → extended true (some x) entries ≡ ok m
      → lookup name m ≡ some (entry x)
  extended-lookup x entries m ran =
      ap (lookup name) (ok-injective (sym ran))
      ∙ lookup-insert name name (entry x) entries
      ∙ rw ((text_beq_iff name name).1 refl) refl

module _ {r : RealBackend} {l : LimitTypes} where
  -- The handles that the wrapped backend knows, and the nide manager, as far as they are asked for.
  pub bulk_info-handles :
      (known : Text → Bool) (handles : List Text) (b : YarnBackend r l) (m : Map Text r.InfoEntry)
      → ((hs : List Text) (entries : Map Text r.InfoEntry)
          → r.bulk_info hs b.real_backend ≡ ok entries
          → (h : Text) → has_key h entries ≡ (known h && ltb 0 (occurs h hs)))
      → bulk_info handles b ≡ ok m
      → ((h : Text)
          → has_key h m ≡ ((known h || text_beq h nm_handler) && ltb 0 (occurs h handles)))
        × ((c : YarnContainer l)
            → current b ≡ some c
            → 0 < occurs nm_handler handles
            → lookup nm_handler m ≡ some (r.info_entry (info c)))
  unfolding bulk_info
  bulk_info-handles known handles b m answers h =
      let (entries, answered, rest) =
        >>=-eq-ok (r.bulk_info (remove_handle handles).handles b.real_backend) _ h in
      let found = (remove_handle-occurs handles nm_handler).1 in
      (
        λ h.
            extended-has_key nm_handler (λ c. r.info_entry (info c)) (remove_handle handles).found
              (current b) entries m rest h
            ∙ rw
                (
                  answers (remove_handle handles).handles entries answered h,
                  text_beq-sym nm_handler h,
                )
                (ltb-joined (remove_handle handles).found (text_beq h nm_handler) (known h)
                  (occurs h (remove_handle handles).handles) (occurs h handles)
                  (remove_handle-occurs handles h).0
                  (λ same.
                    found
                    ∙ ap (λ x. ltb 0 (occurs x handles))
                        (sym ((text_beq_iff h nm_handler).0 same)))),
        λ c at some_handle.
            extended-lookup nm_handler (λ c. r.info_entry (info c)) c entries m
              (rw (found ∙ lt→ltb 0 (occurs nm_handler handles) some_handle, at) at rest),
      )
