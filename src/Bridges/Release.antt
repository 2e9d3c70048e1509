-- ===== src/Bridges/Release.antt =====
-- What `Release` does, to the maps and to the devices.
use garden_linux.Common.{
  ◌≡◌, ◌≢◌, ◌⊎◌, inl, inr, ap, ◌∙◌, List, [], ◌∷◌, none, some, arith, Option-cases, List-cases,
  Text, text_beq_iff, text_eq, nat_eq, ◌-◌, ◌<◌, ◌+◌, if◌then◌else◌, text_beq, refl,
}
use garden_linux.Common.Map
use garden_linux.Common.Map.{Map}
use garden_linux.Subnets.Address.{IpNet, net_eq, net_beq_iff}
use garden_linux.Bridges.{
  Devices, Manager, owners_of, remove, delete_subnet, drop_bridge, release, destroyed, Text, List,
  none, some, [], ℕ, ok, err, destroy_failed,
}
use garden_linux.Bridges.Invariant.{IsValid}

-- The owners of a bridge that are left when a container gives it back.
abbrev pub left : Text → Text → Manager → List Text
left name id m = remove (owners_of (Map.lookup name m.owners)) id

abbrev pub with_owners : Text → List Text → Manager → Manager
with_owners name os m = record m { owners = Map.insert name os m.owners }

drop_bridge-IsValid :
    (m : Manager) (name : Text) (os : List Text)
    → IsValid m
    → IsValid (drop_bridge name (with_owners name os m))
unfolding drop_bridge delete_subnet
drop_bridge-IsValid m name os v = elim (Option-cases (Map.lookup name m.bridge_subnet)) [
  | inl unknown ↦ rw unknown (record {
    to_subnet = λ s n h.
        ground
          (arith, Map.lookup-delete name n m.bridge_subnet, text_beq_iff name n, v.to_subnet s n h);
    to_bridge = λ n s h. ground (arith, Map.lookup-delete name n m.bridge_subnet, v.to_bridge n s);
    owned = λ n s h. ground (arith, owned n s);
    known = λ n h. known n h;
  })
  | inr (sn, e) ↦ rw e (record {
    to_subnet = λ s n h. ground (
      arith,
      Map.lookup-delete sn s m.subnet_bridge,
      Map.lookup-delete name n m.bridge_subnet,
      text_beq_iff name n,
      net_beq_iff sn s,
      v.to_subnet s n,
      v.to_bridge name sn e,
    );
    to_bridge = λ n s h. ground (
      arith,
      Map.lookup-delete sn s m.subnet_bridge,
      Map.lookup-delete name n m.bridge_subnet,
      text_beq_iff name n,
      net_beq_iff sn s,
      v.to_bridge n s,
      v.to_bridge name sn e,
    );
    owned = λ n s h. ground (arith, owned n s);
    known = λ n h. known n h;
  })
]
  where
    owned :
        (n : Text) (s : IpNet)
        → Map.lookup n (Map.delete name m.bridge_subnet) ≡ some s
        → owners_of (Map.lookup n (Map.delete name (Map.insert name os m.owners))) ≢ []
    owned n s h = ground (
      arith,
      Map.lookup-delete name n m.bridge_subnet,
      Map.lookup-delete name n (Map.insert name os m.owners),
      Map.lookup-insert name n os m.owners,
      v.owned n s,
    )

    known :
        (n : Text)
        → Map.lookup n (Map.delete name m.bridge_subnet) ≡ none
        → Map.lookup n (Map.delete name (Map.insert name os m.owners)) ≡ none
    known n h = ground (
      arith,
      Map.lookup-delete name n m.bridge_subnet,
      Map.lookup-delete name n (Map.insert name os m.owners),
      Map.lookup-insert name n os m.owners,
      v.known n,
    )

kept-IsValid :
    (m : Manager) (name : Text) (os : List Text)
    → IsValid m
    → os ≢ []
    → Map.lookup name m.bridge_subnet ≢ none
    → IsValid (with_owners name os m)
unfolding owners_of
kept-IsValid m name os v some_left inside = record {
  to_subnet = v.to_subnet;
  to_bridge = v.to_bridge;
  owned = λ n t h. ground (arith, Map.lookup-insert name n os m.owners, v.owned n t h);
  known =
      λ n h. ground (arith, Map.lookup-insert name n os m.owners, text_beq_iff name n, v.known n h);
}

left_known :
    (m : Manager) (name id o : Text) (os : List Text)
    → IsValid m
    → left name id m ≡ o ∷ os
    → Map.lookup name m.bridge_subnet ≢ none
unfolding remove owners_of
left_known m name id o os v e unknown =
    let no_owner = v.known name unknown in cc (ap (λ p. remove (owners_of p) id) no_owner)

-- `Release` keeps the maps in agreement, for any bridge and container.
pub release-Manager-IsValid :
    (d : Devices) (name id : Text) (m : Manager) (k : d.Kernel)
    → IsValid m
    → IsValid (release d name id m k).0
unfolding release
release-Manager-IsValid d name id m k v = elim (List-cases (left name id m)) [
  | inl e ↦ rw (e, release) (drop_bridge-IsValid m name (left name id m) v)
  | inr (o, os, e) ↦
      rw (e, release)
        (kept-IsValid m name (left name id m) v (λ f. cc) (left_known m name id o os v e))
]

-- How often a container stands among the owners.
pub occurrences : Text → List Text → ℕ
occurrences x [] = 0
occurrences x (o ∷ os) = occurrences x os + (if text_beq x o then 1 else 0)

-- How often once `id` has given one claim back.
abbrev pub remaining : Text → Manager → Text → Text → ℕ
remaining name m id x =
    occurrences x (owners_of (Map.lookup name m.owners)) - (if text_beq x id then 1 else 0)

occurrences-remove :
    (x id : Text) (os : List Text)
    → occurrences x (remove os id) ≡ occurrences x os - (if text_beq x id then 1 else 0)
unfolding remove occurrences
occurrences-remove x id [] = ground arith
occurrences-remove x id (o ∷ os) =
    ground
      (arith, occurrences-remove x id os, text_beq_iff o id, text_beq_iff x id, text_beq_iff x o)

occurrences_front : (o : Text) (os : List Text) → 0 < occurrences o (o ∷ os)
unfolding occurrences
occurrences_front o os = ground (arith, text_beq_iff o o)

-- Nothing that is about another bridge changes.
abbrev pub SameElsewhere : Text → Manager → Manager → Type 0
SameElsewhere name m m' =
    (n : Text)
    → n ≢ name
    → (Map.lookup n m'.owners ≡ Map.lookup n m.owners)
      × (Map.lookup n m'.bridge_subnet ≡ Map.lookup n m.bridge_subnet)

release-SameElsewhere :
    (d : Devices) (name id : Text) (m : Manager) (k : d.Kernel)
    → SameElsewhere name m (release d name id m k).0
unfolding release drop_bridge
release-SameElsewhere d name id m k n ne = elim (List-cases (left name id m)) [
  | inl e ↦
      rw (e, release)
        (
          ground (
            arith,
            Map.lookup-delete name n (Map.insert name (left name id m) m.owners),
            Map.lookup-insert name n (left name id m) m.owners,
            text_beq_iff name n,
          ),
          ground (arith, Map.lookup-delete name n m.bridge_subnet, text_beq_iff name n),
        )
  | inr (o, os, e) ↦
      rw (e, release)
        (
          ground (arith, Map.lookup-insert name n (left name id m) m.owners, text_beq_iff name n),
          refl,
        )
]

-- `Release` from maps that agree leaves maps that agree and all other bridges as they were. If no
-- owner is left once one claim of the container is taken away, the bridge is gone from all three
-- maps, no subnet has it, the devices are those that `Destroy` leaves, and the result is the error
-- of `Destroy` if it has one; otherwise the bridge keeps exactly the other claims, and neither the
-- devices nor the subnets change.
pub release-left :
    (d : Devices) (name id : Text) (m : Manager) (k : d.Kernel)
    → IsValid m
    → let (m', k', result) = release d name id m k in
      IsValid m'
      × SameElsewhere name m m'
      × ((((x : Text) → remaining name m id x ≡ 0)
            × (Map.lookup name m'.owners ≡ none)
            × (Map.lookup name m'.bridge_subnet ≡ none)
            × ((s : IpNet) → Map.lookup s m'.subnet_bridge ≢ some name)
            × (k' ≡ (d.destroy name k).0)
            × ((d.destroy name k).1 ≡ none → result ≡ ok tt)
            × ((e : Text) → (d.destroy name k).1 ≡ some e → result ≡ err (destroy_failed e)))
          ⊎ (((x : Text) × (0 < remaining name m id x))
              × ((x : Text)
                  → occurrences x (owners_of (Map.lookup name m'.owners)) ≡ remaining name m id x)
              × (m'.bridge_subnet ≡ m.bridge_subnet)
              × (m'.subnet_bridge ≡ m.subnet_bridge)
              × (k' ≡ k)
              × (result ≡ ok tt)))
unfolding release drop_bridge destroyed owners_of occurrences
release-left d name id m k v =
    let v' = release-Manager-IsValid d name id m k v in
    let counted : (x : Text) → occurrences x (left name id m) ≡ remaining name m id x =
      λ x. occurrences-remove x id (owners_of (Map.lookup name m.owners)) in
    (
      v',
      release-SameElsewhere d name id m k,
      elim (List-cases (left name id m)) [
        | inl e ↦
            let gone : Map.lookup name (release d name id m k).0.bridge_subnet ≡ none =
              rw (e, release)
                (Map.lookup-delete name name m.bridge_subnet
                  ∙ ground (arith, text_beq_iff name name)) in
            inl (
              λ x. ground (arith, counted x, e),
              rw (e, release)
                  (Map.lookup-delete name name (Map.insert name (left name id m) m.owners)
                    ∙ ground (arith, text_beq_iff name name)),
              gone,
              λ s h. cc (v'.to_subnet s name h),
              rw (e, release) (ground arith),
              λ h. rw (e, release) (ground arith),
              λ f h. rw (e, release) (ground arith),
            )
        | inr (o, os, e) ↦ inr (
          (o, ground (arith, counted o, e, occurrences_front o os)),
          λ x.
              rw (e, release)
                (ground (
                  arith,
                  Map.lookup-insert name name (left name id m) m.owners,
                  text_beq_iff name name,
                  counted x,
                )),
          rw (e, release),
          rw (e, release),
          rw (e, release),
          rw (e, release),
        )
      ],
    )
