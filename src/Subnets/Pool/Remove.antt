-- ===== src/Subnets/Pool/Remove.antt =====
-- `Remove` of subnets.go, which takes a network back when a container is restored, and
-- `Release` after it and after `Acquire`.
use garden_linux.Common.{
  ℕ, ◌+◌, ◌<◌, ◌≡◌, ◌⊎◌, inl, inr, ap, true, List, [], ◌∷◌, ◌++◌, none, some, ◌==◌, if◌then◌else◌,
  count, count-append, ok, err, arith, Bool-cases,
}
use garden_linux.Common.Map
use garden_linux.Common.Map.{Map}
use garden_linux.Subnets.Address.{IpNet, net_eq, net_beq_iff, overlaps}
use garden_linux.Subnets.Address.Range.{IsNet, Apart}
use garden_linux.Subnets.Errors.{overlaps_existing_subnet}
use garden_linux.Subnets.Selectors.{SubnetSelector, IpSelector}
use garden_linux.Subnets.Selectors.Subnet.{OnGrid}
use garden_linux.Subnets.Pool.{Network, Pool, ips_of, get, acquire, release, remove, has_ip}
use garden_linux.Subnets.Pool.Entries.{has_ip-count}
use garden_linux.Subnets.Pool.Separate.{Allocated, is_usable, EqualOrApart, total, total-insert}
use garden_linux.Subnets.Pool.Selected.{IsValid, IsSelector}
use garden_linux.Subnets.Pool.Acquire.{acquire-IsValid, acquire_parts, add-IsValid}
use garden_linux.Subnets.Pool.Release.{release_cases, release-IsValid}

-- The two outcomes of `Remove` for an address.
pub remove_cases :
    (p : Pool) (s : IpNet) (w : ℕ)
    → ((0 < count w (get p.allocated s))
        × (remove p (record { subnet = s; ip = some w }) ≡ err overlaps_existing_subnet))
      ⊎ ((count w (get p.allocated s) ≡ 0)
          × (remove p (record { subnet = s; ip = some w })
              ≡ ok (record p {
                allocated = Map.insert s (get p.allocated s ++ w ∷ []) p.allocated;
              })))
unfolding remove
remove_cases p s w = elim (Bool-cases (has_ip w (get p.allocated s))) [
  | inl here ↦ inl (ground (arith, has_ip-count w (get p.allocated s)), rw here)
  | inr free ↦ inr (ground (arith, has_ip-count w (get p.allocated s)), rw free)
]

-- A network that is taken back keeps a valid pool valid, if its subnet is masked, is a block of
-- the dynamic range or apart from it, and is equal to or apart from each allocated subnet, and if
-- its address is usable; that address is then the only one whose allocation changes.
pub remove-IsValid :
    (p q : Pool) (s : IpNet) (w : ℕ)
    → IsValid p
    → IsNet s
    → OnGrid p.dynamic_range s ⊎ Apart p.dynamic_range s
    → EqualOrApart s p.allocated
    → is_usable s w ≡ true
    → remove p (record { subnet = s; ip = some w }) ≡ ok q
    → IsValid q × ((x : ℕ) → total x q.allocated ≡ total x p.allocated + (if w == x then 1 else 0))
remove-IsValid p q s w v n place others u e = elim (remove_cases p s w) [
  | inl (_, failed) ↦ absurd (cc)
  | inr (free, done) ↦
      let same : q
          ≡ record p { allocated = Map.insert s (get p.allocated s ++ w ∷ []) p.allocated } =
        ground arith in
      rw same (
        add-IsValid p s w v (record {
          selected = record { net = n; place = place; others = others };
          usable = u;
          free = free;
        }),
        λ x. ground (
          arith,
          total-insert s (get p.allocated s ++ w ∷ []) p.allocated x,
          count-append x (get p.allocated s) (w ∷ []),
        ),
      )
]

-- `Remove` does not look at the other subnets: it also takes back a subnet that overlaps an
-- allocated one and differs from it, which then are both allocated.
pub remove_overlapping :
    (p : Pool) (s k : IpNet) (w : ℕ) (ips : List ℕ)
    → Map.lookup k p.allocated ≡ some ips
    → Map.lookup s p.allocated ≡ none
    → overlaps s k ≡ true
    → (q : Pool) × (remove p (record { subnet = s; ip = some w }) ≡ ok q)
      × (Map.lookup k q.allocated ≡ some ips)
      × (Map.lookup s q.allocated ≡ some (w ∷ []))
unfolding get ips_of
remove_overlapping p s k w ips old new over = elim (remove_cases p s w) [
  | inl (here, failed) ↦ absurd (ground (arith, ap (λ o. count w (ips_of o)) new))
  | inr (free, done) ↦ (
    _,
    done,
    ground
        (arith, Map.lookup-insert s k (get p.allocated s ++ w ∷ []) p.allocated, net_beq_iff s k),
    ground
        (arith, Map.lookup-insert s s (get p.allocated s ++ w ∷ []) p.allocated, net_beq_iff s s),
  )
]

get-insert : (m : Allocated) (s : IpNet) (v : List ℕ) → get (Map.insert s v m) s ≡ v
unfolding get ips_of
get-insert m s v = ground (arith, Map.lookup-insert s s v m, net_beq_iff s s)

-- `Release` of a network that was just acquired from a valid pool (with a static subnet that is
-- masked, or the dynamic selector) succeeds, leaves the pool valid, and every address is then
-- allocated as often as before.
pub release-acquire :
    (p q : Pool) (sn : SubnetSelector) (i : IpSelector) (network : Network)
    → IsValid p
    → IsSelector sn
    → acquire p sn i ≡ ok (network, q)
    → (r : Pool) × (release q network ≡ ok r)
      × IsValid r
      × ((x : ℕ) → total x r.allocated ≡ total x p.allocated)
release-acquire p q sn i network v n e =
    let (s, ip, a, is_network, is_pool) = acquire_parts p q sn i network v n e in
    let valid = acquire-IsValid p q sn i network v n e in
    let vq = valid.0 in
    let there : count ip (get q.allocated s) ≡ count ip (get p.allocated s ++ ip ∷ []) =
      rw is_pool (ap (count ip) (get-insert p.allocated s (get p.allocated s ++ ip ∷ []))) in
    let held : 0 < count ip (get q.allocated s) =
      ground (arith, there, count-append ip (get p.allocated s) (ip ∷ [])) in
    let added : (x : ℕ) → total x q.allocated ≡ total x p.allocated + (if ip == x then 1 else 0) =
      λ x. rw is_pool (
        ground (
          arith,
          total-insert s (get p.allocated s ++ ip ∷ []) p.allocated x,
          count-append x (get p.allocated s) (ip ∷ []),
        )) in
    rw is_network (elim (release_cases q s ip) [
      | inl (absent, _) ↦ absurd (omega arith)
      | inr (j, _, done) ↦
          let (vr, _, counts) = release-IsValid q _ s ip vq done in
          (_, done, vr, λ x. omega (arith, counts x, added x))
    ])

-- `Release` of a network that was just taken back succeeds, and every address is then allocated
-- as often as before.
pub release-remove :
    (p q : Pool) (s : IpNet) (w : ℕ)
    → IsValid p
    → IsNet s
    → OnGrid p.dynamic_range s ⊎ Apart p.dynamic_range s
    → EqualOrApart s p.allocated
    → is_usable s w ≡ true
    → remove p (record { subnet = s; ip = some w }) ≡ ok q
    → (r : Pool) × (release q (record { subnet = s; ip = some w }) ≡ ok r)
      × IsValid r
      × ((x : ℕ) → total x r.allocated ≡ total x p.allocated)
unfolding remove
release-remove p q s w v n place others u e =
    let (vq, added) = remove-IsValid p q s w v n place others u e in
    let stored : q.allocated ≡ Map.insert s (get p.allocated s ++ w ∷ []) p.allocated =
      elim (remove_cases p s w) [ inl (_, failed) ↦ absurd (cc) | inr (_, done) ↦ ground arith ] in
    let held : 0 < count w (get q.allocated s) = rw stored (
      ground (
        arith,
        ap (count w) (get-insert p.allocated s (get p.allocated s ++ w ∷ [])),
        count-append w (get p.allocated s) (w ∷ []),
      )) in
    elim (release_cases q s w) [
      | inl (absent, _) ↦ absurd (omega arith)
      | inr (j, _, done) ↦
          let (vr, _, counts) = release-IsValid q _ s w vq done in
          (_, done, vr, λ x. omega (arith, counts x, added x))
    ]
