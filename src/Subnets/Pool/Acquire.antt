-- ===== src/Subnets/Pool/Acquire.antt =====
-- What `Acquire` does to a valid pool.
use garden_linux.Common.{
  ℕ, ◌+◌, ◌≤◌, ◌≡◌, inl, inr, refl, true, [], ◌∷◌, ◌++◌, Option, none, some, ◌==◌, if◌then◌else◌,
  count, count-append, ok, >>=-eq-ok, arith, Option-cases, snoc-ne-nil,
}
use garden_linux.Common.Map
use garden_linux.Common.Map.{Map}
use garden_linux.Subnets.Address.{IpNet, net_eq, or_panic, network_ip, gateway_ip, broadcast_ip}
use garden_linux.Subnets.Address.Range.{gateway_ip_lem, network_ip_lem, broadcast_ip_lem}
use garden_linux.Subnets.Selectors.{SubnetSelector, IpSelector, select_ip}
use garden_linux.Subnets.Selectors.Host.{select_ip-ok}
use garden_linux.Subnets.Pool.{Network, Pool, ips_of, get, acquire}
use garden_linux.Subnets.Pool.Entries.{ip_exists-count}
use garden_linux.Subnets.Pool.Separate.{
  Allocated, is_usable, IsEntry, Entries, total, All-insert, Entries-lookup, insert-Separate,
  total-insert, total-get,
}
use garden_linux.Subnets.Pool.Selected.{IsValid, IsSelector, IsSelected, select_subnet-IsSelected}

or_panic-ok {ℓ κ} :
    {E : Type ℓ} {A : Type κ} (o : Option A) {a : A} → or_panic {E = E} o ≡ ok a → o ≡ some a
or_panic-ok none e = absurd (cc)
or_panic-ok (some a) e = cc

-- What `Acquire` has done when it succeeds.
pub record Acquired (p : Pool) (s : IpNet) (ip : ℕ) : Type 0 where
  pub selected : IsSelected p.dynamic_range p.allocated s
  pub usable : is_usable s ip ≡ true
  pub free : count ip (get p.allocated s) ≡ 0

Acquired-of :
    (p : Pool) (s : IpNet) (i : IpSelector) (g ip : ℕ)
    → IsSelected p.dynamic_range p.allocated s
    → g ≡ s.ip + 1
    → select_ip i s (get p.allocated s ++ network_ip s ∷ g ∷ broadcast_ip s ∷ []) ≡ ok ip
    → Acquired p s ip
Acquired-of p s i g ip selected g_is picked =
    let existing = get p.allocated s ++ network_ip s ∷ g ∷ broadcast_ip s ∷ [] in
    let (lo, hi, new) = select_ip-ok i s existing ip selected.net picked in
    let absent : count ip existing ≡ 0 = ground (arith, ip_exists-count ip existing) in
    let parts = count-append ip (get p.allocated s) (network_ip s ∷ g ∷ broadcast_ip s ∷ []) in
    let network = network_ip_lem s in
    let broadcast = broadcast_ip_lem s selected.net in
    record { selected = selected; usable = ground arith; free = ground arith }

pub acquire_parts :
    (p q : Pool) (sn : SubnetSelector) (i : IpSelector) (network : Network)
    → IsValid p
    → IsSelector sn
    → acquire p sn i ≡ ok (network, q)
    → (s : IpNet) × (ip : ℕ) × Acquired p s ip
      × (network ≡ record { subnet = s; ip = some ip })
      × (q ≡ record p { allocated = Map.insert s (get p.allocated s ++ ip ∷ []) p.allocated })
unfolding acquire
acquire_parts p q sn i network v n e =
    let (s, chosen, e₁) = >>=-eq-ok _ _ e in
    let (g, gateway, e₂) = >>=-eq-ok _ _ e₁ in
    let (ip, picked, e₃) = >>=-eq-ok _ _ e₂ in
    let selected = select_subnet-IsSelected p sn s v n chosen in
    let g_is = gateway_ip_lem s g selected.net (or_panic-ok (gateway_ip s) gateway) in
    (s, ip, Acquired-of p s i g ip selected g_is picked, ground arith, ground arith)

-- The addresses of a subnet, whether or not it is a key.
pub get-usable :
    (dynamic k : IpNet) (m : Allocated) (x : ℕ)
    → Entries dynamic m
    → count x (get m k) ≤ (if is_usable k x then 1 else 0)
unfolding get ips_of
get-usable dynamic k m x en = elim (Option-cases (Map.lookup k m)) [
  | inl missing ↦ rw missing (omega arith)
  | inr (v, found) ↦ rw found ((Entries-lookup dynamic k m en found).usable x)
]

-- One more address in a subnet keeps a pool valid.
pub add-IsValid :
    (p : Pool) (s : IpNet) (ip : ℕ)
    → IsValid p
    → Acquired p s ip
    → IsValid (record p { allocated = Map.insert s (get p.allocated s ++ ip ∷ []) p.allocated })
add-IsValid p s ip v a = record {
  range = v.range;
  entries = All-insert (λ e. IsEntry p.dynamic_range e.0 e.1) s _ p.allocated entry v.entries;
  separate = insert-Separate s _ p.allocated a.selected.others v.separate;
}
  where
    entry : IsEntry p.dynamic_range s (get p.allocated s ++ ip ∷ [])
    entry = record {
      net = a.selected.net;
      place = a.selected.place;
      nonempty = snoc-ne-nil (get p.allocated s) ip;
      usable = λ x. ground (
        arith,
        get-usable p.dynamic_range s p.allocated x v.entries,
        count-append x (get p.allocated s) (ip ∷ []),
        a.usable,
        a.free,
      );
    }

-- When `Acquire` succeeds on a valid pool (with a static subnet that is masked, or the dynamic
-- selector), the pool stays valid, and the address that it returns is a usable one of the returned
-- subnet, was allocated in no subnet of the pool, and is the only address whose allocation
-- changes.
pub acquire-IsValid :
    (p q : Pool) (sn : SubnetSelector) (i : IpSelector) (network : Network)
    → IsValid p
    → IsSelector sn
    → acquire p sn i ≡ ok (network, q)
    → IsValid q
      × (ip : ℕ) × (network.ip ≡ some ip)
      × (is_usable network.subnet ip ≡ true)
      × (total ip p.allocated ≡ 0)
      × ((x : ℕ) → total x q.allocated ≡ total x p.allocated + (if ip == x then 1 else 0))
acquire-IsValid p q sn i network v n e =
    let (s, ip, a, is_network, is_pool) = acquire_parts p q sn i network v n e in
    rw (is_network, is_pool)
      (
        add-IsValid p s ip v a,
        ip,
        refl,
        a.usable,
        ground (
          arith,
          a.free,
          a.usable,
          total-get p.dynamic_range s p.allocated ip v.entries v.separate a.selected.others,
        ),
        λ x. ground (
          arith,
          total-insert s (get p.allocated s ++ ip ∷ []) p.allocated x,
          count-append x (get p.allocated s) (ip ∷ []),
        ),
      )
