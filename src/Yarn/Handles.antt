-- ===== src/Yarn/Handles.antt =====
-- `removeHandle` of YarnBackend.go: the last handle takes the place of the first one of the nide
-- manager.
use garden_linux.Common.{
  ℕ, suc, ◌+◌, ◌-◌, ◌≡◌, inl, inr, refl, sym, ◌∙◌, Bool, true, false, ◌&&◌, List, [], ◌∷◌, ◌++◌,
  append_assoc, length, length-append, take, set, arith, Bool-cases, Text, text_beq, text_beq_iff,
  text_eq, nat_eq, set-append, ltb, ◌||◌, ap, lt→ltb,
}
use garden_linux.Yarn.Nide.{nm_handler}
use garden_linux.Yarn.Server.{last_of, remove_from, remove_handle}

abbrev pub one_if : Bool → ℕ
one_if true = 1
one_if false = 0

-- How often a handle is in a list.
abbrev pub occurs : Text → List Text → ℕ
occurs h [] = 0
occurs h (x ∷ xs) = one_if (text_beq h x) + occurs h xs

occurs-append : (h : Text) (xs ys : List Text) → occurs h (xs ++ ys) ≡ occurs h xs + occurs h ys
occurs-append h [] ys = omega arith
occurs-append h (x ∷ xs) ys = omega (arith, occurs-append h xs ys)

last_of-append : (xs ys : List Text) (y : Text) → last_of (xs ++ y ∷ ys) ≡ last_of (y ∷ ys)
last_of-append [] ys y = refl
last_of-append (x ∷ []) ys y = refl
last_of-append (x ∷ w ∷ xs) ys y = last_of-append (w ∷ xs) ys y

-- The last element stays the last one if it is written over an earlier one.
last_of-last_of : (y : Text) (ys : List Text) → last_of (last_of (y ∷ ys) ∷ ys) ≡ last_of (y ∷ ys)
last_of-last_of y [] = refl
last_of-last_of y (z ∷ ys) = refl

occurs-take :
    (h x : Text) (xs : List Text)
    → occurs h (take (length xs) (x ∷ xs)) + one_if (text_beq h (last_of (x ∷ xs)))
      ≡ occurs h (x ∷ xs)
occurs-take h x [] = omega arith
occurs-take h x (y ∷ xs) = omega (arith, occurs-take h y xs)

suc-1 : (n : ℕ) → suc n - 1 ≡ n
suc-1 n = omega arith

occurs-take_all :
    (h : Text) (xs ys : List Text) (x : Text)
    → occurs h (take (length (xs ++ x ∷ ys) - 1) (xs ++ x ∷ ys))
        + one_if (text_beq h (last_of (xs ++ x ∷ ys)))
      ≡ occurs h (xs ++ x ∷ ys)
occurs-take_all h [] ys x = rw (suc-1 (length ys)) (occurs-take h x ys)
occurs-take_all h (y ∷ xs) ys x =
    rw (suc-1 (length (xs ++ x ∷ ys))) (occurs-take h y (xs ++ x ∷ ys))

same_length : (xs ys : List Text) (x y : Text) → length (xs ++ x ∷ ys) ≡ length (xs ++ y ∷ ys)
same_length xs ys x y = omega (arith, length-append xs (x ∷ ys), length-append xs (y ∷ ys))

occurs-swapped :
    (h y : Text) (before ys zs : List Text)
    → zs ≡ before ++ y ∷ ys
    → occurs h (take (length zs - 1) (set zs (length before) (last_of zs))) + one_if (text_beq h y)
      ≡ occurs h zs
occurs-swapped h y before ys zs split = rw split (
    let final = last_of (y ∷ ys) in
    let all_but_last = occurs-take_all h before ys final in
    rw (last_of-append before ys y, set-append before ys y final, same_length before ys y final)
      (omega (
        arith,
        (rw (last_of-append before ys final, last_of-last_of y ys) at all_but_last),
        occurs-append h before (y ∷ ys),
        occurs-append h before (final ∷ ys),
      )))

remove_from-occurs :
    (h : Text) (before rest zs : List Text) (i : ℕ)
    → zs ≡ before ++ rest
    → i ≡ length before
    → let removed = remove_from zs i rest in
      occurs h removed.handles + one_if (removed.found && text_beq h nm_handler) ≡ occurs h zs
unfolding remove_from
remove_from-occurs h before [] zs i split at = omega arith
remove_from-occurs h before (y ∷ ys) zs i split at = elim (Bool-cases (text_beq y nm_handler)) [
  | inl same ↦
      ground
        (arith, same, at, (text_beq_iff y nm_handler).0 same, occurs-swapped h y before ys zs split)
  | inr other ↦ ground (
    arith,
    other,
    remove_from-occurs h (before ++ y ∷ []) ys zs (suc i)
        (split ∙ sym (append_assoc before (y ∷ []) ys))
        (omega (arith, length-append before (y ∷ []))),
  )
]

pub text_beq-sym : (s t : Text) → text_beq s t ≡ text_beq t s
text_beq-sym s t = ground (arith, text_beq_iff s t, text_beq_iff t s)

pub ltb-one_if : (b : Bool) (n : ℕ) → ltb 0 (one_if b + n) ≡ (b || ltb 0 n)
ltb-one_if true n = lt→ltb 0 (1 + n) (omega arith)
ltb-one_if false n = ap (λ m. ltb 0 m) (omega arith)

one_if-zero : (b : Bool) (n : ℕ) → one_if b + n ≡ 0 → (b ≡ false) × (n ≡ 0)
one_if-zero true n h = absurd (omega arith)
one_if-zero false n h = (refl, omega arith)

remove_from-found :
    (zs rest : List Text) (i : ℕ) → (remove_from zs i rest).found ≡ ltb 0 (occurs nm_handler rest)
unfolding remove_from
remove_from-found zs [] i = refl
remove_from-found zs (y ∷ ys) i =
    elim (Bool-cases (text_beq y nm_handler)) [
      | inl same ↦ rw same refl
      | inr other ↦ rw other (remove_from-found zs ys (suc i))
    ]
    ∙ ap (λ b. b || ltb 0 (occurs nm_handler ys)) (text_beq-sym y nm_handler)
    ∙ sym (ltb-one_if (text_beq nm_handler y) (occurs nm_handler ys))

remove_from-kept :
    (zs rest : List Text) (i : ℕ)
    → occurs nm_handler rest ≡ 0
    → remove_from zs i rest ≡ record { handles = zs; found = false; callers = zs }
unfolding remove_from
remove_from-kept zs [] i none = refl
remove_from-kept zs (y ∷ ys) i none =
    let (other, fewer) = one_if-zero (text_beq nm_handler y) (occurs nm_handler ys) none in
    rw (text_beq-sym y nm_handler ∙ other) (remove_from-kept zs ys (suc i) fewer)

pub remove_handle-kept :
    (handles : List Text)
    → occurs nm_handler handles ≡ 0
    → remove_handle handles ≡ record { handles = handles; found = false; callers = handles }
unfolding remove_handle
remove_handle-kept handles none = remove_from-kept handles handles 0 none

-- One of the nide manager's handles is gone if there is one, and every other handle is there as often
-- as before.
pub remove_handle-occurs :
    (handles : List Text) (h : Text)
    → let removed = remove_handle handles in
      (occurs h removed.handles + one_if (removed.found && text_beq h nm_handler)
        ≡ occurs h handles)
      × (removed.found ≡ ltb 0 (occurs nm_handler handles))
unfolding remove_handle
remove_handle-occurs handles h =
    (remove_from-occurs h [] handles handles 0 refl refl, remove_from-found handles handles 0)
