-- ===== src/Subnets/Pool/Separate.antt =====
-- Maps whose subnets share no address, and how a write or a delete changes what they hold.
use garden_linux.Common.{
  ℕ, ◌+◌, ◌≤◌, ◌<◌, ◌≡◌, ◌≢◌, ◌⊎◌, inl, inr, refl, ap, Bool, ◌&&◌, List, [], ◌∷◌, map, some,
  if◌then◌else◌, ltb, count, All, arith, Bool-cases,
}
use garden_linux.Common.Map
use garden_linux.Common.Map.{Map}
use garden_linux.Subnets.Address.{IpNet, size, net_beq, net_beq_iff, net_eq}
use garden_linux.Subnets.Address.Range.{IsNet, Apart, size-pos, masked_lem}
use garden_linux.Subnets.Selectors.Subnet.{OnGrid}
use garden_linux.Subnets.Pool.{get, subnets}

abbrev pub Allocated : Type 0
Allocated = Map IpNet (List ℕ)

-- An address that a container can have: neither the network, the gateway nor the broadcast.
abbrev pub is_usable : IpNet → ℕ → Bool
is_usable k x = ltb (k.ip + 1) x && ltb (x + 1) (k.ip + size k)

-- An entry: its addresses are usable and differ, and its subnet is a block of the dynamic range
-- or apart from that range.
pub record IsEntry (dynamic k : IpNet) (ips : List ℕ) : Type 0 where
  pub net : IsNet k
  pub place : OnGrid dynamic k ⊎ Apart dynamic k
  pub nonempty : ips ≢ []
  pub usable : (x : ℕ) → count x ips ≤ (if is_usable k x then 1 else 0)

abbrev pub Entries : IpNet → Allocated → Type 0
Entries dynamic = All (λ e. IsEntry dynamic e.0 e.1)

abbrev pub EqualOrApart : IpNet → Allocated → Type 0
EqualOrApart k = All (λ e. (e.0 ≡ k) ⊎ Apart k e.0)

abbrev pub Separate : Allocated → Type 0
Separate [] = Unit
Separate ((k, v) ∷ m) = All (λ e. Apart k e.0) m × Separate m

-- How often an address is allocated, over all subnets.
abbrev pub total : ℕ → Allocated → ℕ
total x [] = 0
total x ((k, v) ∷ m) = count x v + total x m

module _ {ℓ} (P : IpNet × List ℕ → Type ℓ) where
  pub All-insert :
      (k : IpNet) (v : List ℕ) (m : Allocated) → P (k, v) → All P m → All P (Map.insert k v m)
  unfolding Map.insert
  All-insert k v [] p h = (p, tt)
  All-insert k v ((j, w) ∷ m) p h = elim (Bool-cases (net_beq j k)) [
    | inl same ↦ rw same (p, h.1)
    | inr other ↦ rw other (h.0, All-insert k v m p h.1)
  ]

  pub All-delete : (k : IpNet) (m : Allocated) → All P m → All P (Map.delete k m)
  unfolding Map.delete
  All-delete k [] h = tt
  All-delete k ((j, w) ∷ m) h = elim (Bool-cases (net_beq j k)) [
    | inl same ↦ rw same (All-delete k m h.1)
    | inr other ↦ rw other (h.0, All-delete k m h.1)
  ]

pub Entries-lookup :
    (dynamic k : IpNet) (m : Allocated) {v : List ℕ}
    → Entries dynamic m
    → Map.lookup k m ≡ some v
    → IsEntry dynamic k v
unfolding Map.lookup
Entries-lookup dynamic k [] h e = absurd (cc)
Entries-lookup dynamic k ((j, w) ∷ m) {v} h e = elim (Bool-cases (net_beq j k)) [
  | inl same ↦
      let keys = (net_beq_iff j k).0 same in
      let lists : w ≡ v = ground arith in rw (← keys, ← lists) h.0
  | inr other ↦ Entries-lookup dynamic k m h.1 (rw other at e)
]

-- Every key is listed among the subnets, as it stands.
pub subnets-keys :
    (dynamic : IpNet) (m : Allocated) → Entries dynamic m → subnets m ≡ map (λ e. e.0) m
unfolding subnets
subnets-keys dynamic [] h = refl
subnets-keys dynamic ((k, []) ∷ m) h = absurd (h.0.nonempty refl)
subnets-keys dynamic ((k, ip ∷ ips) ∷ m) h =
    rw (masked_lem k h.0.net) (ap (λ ns. k ∷ ns) (subnets-keys dynamic m h.1))

Apart-ne : (a b : IpNet) → Apart a b → a ≢ b
Apart-ne a b h e = ground (arith, size-pos a, ap size e)

pub insert-Separate :
    (k : IpNet) (v : List ℕ) (m : Allocated)
    → EqualOrApart k m
    → Separate m
    → Separate (Map.insert k v m)
unfolding Map.insert
insert-Separate k v [] a s = (tt, tt)
insert-Separate k v ((j, w) ∷ m) a s = elim (Bool-cases (net_beq j k)) [
  | inl same ↦ rw (same, ← (net_beq_iff j k).0 same) s
  | inr other ↦ rw other (
    All-insert (λ e. Apart j e.0) k v m (ground (arith, net_beq_iff j k)) s.0,
    insert-Separate k v m a.1 s.1,
  )
]

pub delete-Separate : (k : IpNet) (m : Allocated) → Separate m → Separate (Map.delete k m)
unfolding Map.delete
delete-Separate k [] s = tt
delete-Separate k ((j, w) ∷ m) s = elim (Bool-cases (net_beq j k)) [
  | inl same ↦ rw same (delete-Separate k m s.1)
  | inr other ↦ rw other (All-delete (λ e. Apart j e.0) k m s.0, delete-Separate k m s.1)
]

pub total-insert :
    (k : IpNet) (v : List ℕ) (m : Allocated) (x : ℕ)
    → total x (Map.insert k v m) + count x (get m k) ≡ total x m + count x v
unfolding Map.insert Map.lookup get
total-insert k v [] x = omega arith
total-insert k v ((j, w) ∷ m) x = ground (arith, total-insert k v m x)

delete-Apart : (j : IpNet) (m : Allocated) → All (λ e. Apart j e.0) m → Map.delete j m ≡ m
unfolding Map.delete
delete-Apart j [] h = refl
delete-Apart j ((i, w) ∷ m) h =
    ground (arith, net_beq_iff i j, delete-Apart j m h.1, Apart-ne j i h.0)

pub total-delete :
    (k : IpNet) (m : Allocated) (x : ℕ)
    → Separate m
    → total x (Map.delete k m) + count x (get m k) ≡ total x m
unfolding Map.delete Map.lookup get
total-delete k [] x s = omega arith
total-delete k ((j, w) ∷ m) x s =
    ground (arith, total-delete k m x s.1, delete-Apart j m s.0, net_beq_iff j k)

-- An address of a subnet is allocated in no other one.
total-Apart :
    (dynamic j : IpNet) (m : Allocated) (x : ℕ)
    → Entries dynamic m
    → All (λ e. Apart j e.0) m
    → j.ip ≤ x
    → x < j.ip + size j
    → total x m ≡ 0
total-Apart dynamic j [] x en h lo hi = refl
total-Apart dynamic j ((i, w) ∷ m) x en h lo hi =
    ground (arith, total-Apart dynamic j m x en.1 h.1 lo hi, en.0.usable x)

pub total-get :
    (dynamic k : IpNet) (m : Allocated) (x : ℕ)
    → Entries dynamic m
    → Separate m
    → EqualOrApart k m
    → k.ip ≤ x
    → x < k.ip + size k
    → total x m ≡ count x (get m k)
unfolding get Map.lookup
total-get dynamic k [] x en s a lo hi = refl
total-get dynamic k ((j, w) ∷ m) x en s a lo hi = ground (
  arith,
  net_beq_iff j k,
  total-get dynamic k m x en.1 s.1 a.1 lo hi,
  λ (e : j ≡ k). total-Apart dynamic j m x en.1 s.0 (rw e lo) (rw e hi),
  en.0.usable x,
)

-- No address is allocated twice.
pub total_le_one :
    (dynamic : IpNet) (m : Allocated) (x : ℕ) → Entries dynamic m → Separate m → total x m ≤ 1
total_le_one dynamic [] x en s = omega arith
total_le_one dynamic ((k, v) ∷ m) x en s =
    grind
      (arith, en.0.usable x, total_le_one dynamic m x en.1 s.1, total-Apart dynamic k m x en.1 s.0)

All-lookup {ℓ} :
    (P : IpNet × List ℕ → Type ℓ) (k : IpNet) (m : Allocated) {v : List ℕ}
    → All P m
    → Map.lookup k m ≡ some v
    → P (k, v)
unfolding Map.lookup
All-lookup P k [] h e = absurd (cc)
All-lookup P k ((j, w) ∷ m) {v} h e = elim (Bool-cases (net_beq j k)) [
  | inl same ↦
      let keys = (net_beq_iff j k).0 same in
      let lists : w ≡ v = ground arith in rw (← keys, ← lists) h.0
  | inr other ↦ All-lookup P k m h.1 (rw other at e)
]

Apart-All : (j k : IpNet) (m : Allocated) → j ≡ k → All (λ e. Apart j e.0) m → EqualOrApart k m
Apart-All j k [] e h = tt
Apart-All j k ((i, w) ∷ m) e h = (inr (rw (← e) h.0), Apart-All j k m e h.1)

-- A key shares no address with any other key.
pub lookup-EqualOrApart :
    (k : IpNet) (m : Allocated) {v : List ℕ}
    → Separate m
    → Map.lookup k m ≡ some v
    → EqualOrApart k m
unfolding Map.lookup
lookup-EqualOrApart k [] s e = tt
lookup-EqualOrApart k ((j, w) ∷ m) s e = elim (Bool-cases (net_beq j k)) [
  | inl same ↦ let keys = (net_beq_iff j k).0 same in (inl keys, Apart-All j k m keys s.0)
  | inr other ↦
      let inside = rw other at e in
      (
        ground (arith, All-lookup (λ e. Apart j e.0) k m s.0 inside),
        lookup-EqualOrApart k m s.1 inside,
      )
]
