-- ===== src/Subnets/Pool/Release.antt =====
-- What `Release` and `Remove` do to a valid pool.
use garden_linux.Common.{
  ℕ, ◌+◌, ◌≡◌, ◌↔◌, ◌⊎◌, inl, inr, refl, ap, false, none, some, ◌==◌, if◌then◌else◌, count, ok, err,
  arith, Bool-cases, Option-cases,
}
use garden_linux.Common.Map
use garden_linux.Common.Map.{Map}
use garden_linux.Subnets.Address.{IpNet, net_eq}
use garden_linux.Subnets.Errors.{released_unallocated_subnet}
use garden_linux.Subnets.Pool.{Pool, ips_of, get, release, index_of, remove_ip_at_index}
use garden_linux.Subnets.Pool.Entries.{
  index_of-none, index_of-some, index_of-count, remove_ip_at_index-empty, count-remove_ip_at_index,
}
use garden_linux.Subnets.Pool.Separate.{
  Allocated, IsEntry, total, All-insert, All-delete, Entries-lookup, lookup-EqualOrApart,
  insert-Separate, delete-Separate, total-insert, total-delete, total_le_one,
}
use garden_linux.Subnets.Pool.Selected.{IsValid}

-- The two outcomes of `Release` for an address.
pub release_cases :
    (p : Pool) (s : IpNet) (w : ℕ)
    → ((count w (get p.allocated s) ≡ 0)
        × (release p (record { subnet = s; ip = some w }) ≡ err released_unallocated_subnet))
      ⊎ ((i : ℕ) × (index_of (get p.allocated s) w ≡ some i)
          × (release p (record { subnet = s; ip = some w })
              ≡ ok (record p {
                allocated =
                    if (remove_ip_at_index (get p.allocated s) i).1
                    then Map.delete s p.allocated
                    else Map.insert s (remove_ip_at_index (get p.allocated s) i).0 p.allocated;
              })))
unfolding release
release_cases p s w = elim (Option-cases (index_of (get p.allocated s) w)) [
  | inl e ↦ inl (index_of-none (get p.allocated s) w e, rw (e, release))
  | inr (i, e) ↦ inr (i, e, rw (e, release))
]

-- `Release` fails exactly when the address is not allocated in the subnet, also if it is nil.
pub release_fails :
    (p : Pool) (s : IpNet) (w : ℕ)
    → ((release p (record { subnet = s; ip = some w }) ≡ err released_unallocated_subnet)
        ↔ (count w (get p.allocated s) ≡ 0))
      × (release p (record { subnet = s; ip = none }) ≡ err released_unallocated_subnet)
release_fails p s w = (
  elim (release_cases p s w) [
    | inl (absent, failed) ↦ (λ _. absent, λ _. failed)
    | inr (i, found, done) ↦ (
      λ e. absurd (cc),
      λ e. absurd (ground (arith, index_of-count (get p.allocated s) w i found)),
    )
  ],
  unfold release in refl,
)

-- A subnet with an allocated address is a key.
get-key :
    (m : Allocated) (s : IpNet) (i w : ℕ)
    → index_of (get m s) w ≡ some i
    → Map.lookup s m ≡ some (get m s)
unfolding get index_of ips_of
get-key m s i w e = elim (Option-cases (Map.lookup s m)) [
  | inl missing ↦ absurd (cc missing)
  | inr (v, found) ↦ rw found
]

module _ (p : Pool) (s : IpNet) (w i : ℕ) (v : IsValid p)
    (found : index_of (get p.allocated s) w ≡ some i) where
  old : IsEntry p.dynamic_range s (get p.allocated s)
  old = Entries-lookup p.dynamic_range s p.allocated v.entries (get-key p.allocated s i w found)

  -- The entry that stays for the subnet.
  reduced-IsEntry :
      (remove_ip_at_index (get p.allocated s) i).1 ≡ false
      → IsEntry p.dynamic_range s (remove_ip_at_index (get p.allocated s) i).0
  reduced-IsEntry more =
      let (inside, at) = index_of-some (get p.allocated s) w i found in
      record {
        net = old.net;
        place = old.place;
        nonempty = λ e. ground (arith, (remove_ip_at_index-empty (get p.allocated s) i inside).1 e);
        usable = λ x.
            omega
              (arith, count-remove_ip_at_index (get p.allocated s) i w x inside at, old.usable x);
      }

  insert-IsValid :
      (remove_ip_at_index (get p.allocated s) i).1 ≡ false
      → IsValid (record p {
        allocated = Map.insert s (remove_ip_at_index (get p.allocated s) i).0 p.allocated;
      })
  insert-IsValid more = record {
    range = v.range;
    entries =
        All-insert (λ e. IsEntry p.dynamic_range e.0 e.1) s _ p.allocated (reduced-IsEntry more)
          v.entries;
    separate =
        insert-Separate s _ p.allocated
          (lookup-EqualOrApart s p.allocated v.separate (get-key p.allocated s i w found))
          v.separate;
  }

  delete-IsValid : IsValid (record p { allocated = Map.delete s p.allocated })
  delete-IsValid = record {
    range = v.range;
    entries = All-delete (λ e. IsEntry p.dynamic_range e.0 e.1) s p.allocated v.entries;
    separate = delete-Separate s p.allocated v.separate;
  }

  -- Either way one allocation of the address goes.
  released :
      (q : Pool)
      → q ≡ record p {
        allocated =
            if (remove_ip_at_index (get p.allocated s) i).1
            then Map.delete s p.allocated
            else Map.insert s (remove_ip_at_index (get p.allocated s) i).0 p.allocated;
      }
      → IsValid q
        × ((x : ℕ) → total x q.allocated + (if w == x then 1 else 0) ≡ total x p.allocated)
  released q e =
      let ips = get p.allocated s in
      let (inside, at) = index_of-some ips w i found in
      elim (Bool-cases (remove_ip_at_index ips i).1) [
        | inl last ↦
            let nothing = (remove_ip_at_index-empty ips i inside).0 last in
            rw (e, last)
              (
                delete-IsValid,
                λ x. ground (
                  arith,
                  total-delete s p.allocated x v.separate,
                  count-remove_ip_at_index ips i w x inside at,
                  ap (count x) nothing,
                ),
              )
        | inr more ↦
            rw (e, more)
              (
                insert-IsValid more,
                λ x. ground (
                  arith,
                  total-insert s (remove_ip_at_index ips i).0 p.allocated x,
                  count-remove_ip_at_index ips i w x inside at,
                ),
              )
      ]

-- When `Release` succeeds on a valid pool, the pool stays valid, and the released address is the
-- only one whose allocation changes: it is allocated no more.
pub release-IsValid :
    (p q : Pool) (s : IpNet) (w : ℕ)
    → IsValid p
    → release p (record { subnet = s; ip = some w }) ≡ ok q
    → IsValid q
      × (total w q.allocated ≡ 0)
      × ((x : ℕ) → total x q.allocated + (if w == x then 1 else 0) ≡ total x p.allocated)
release-IsValid p q s w v e = elim (release_cases p s w) [
  | inl (_, failed) ↦ absurd (cc)
  | inr (i, found, done) ↦
      let (valid, counts) = released p s w i v found q (ground arith) in
      (
        valid,
        ground (arith, counts w, total_le_one p.dynamic_range p.allocated w v.entries v.separate),
        counts,
      )
]
