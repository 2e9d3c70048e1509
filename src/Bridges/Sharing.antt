-- ===== src/Bridges/Sharing.antt =====
-- When containers share a bridge, and when they should not.
use garden_linux.Common.{
  ℕ, ◌+◌, ◌%◌, ◌≡◌, ◌≢◌, inl, inr, false, List, [], ◌∷◌, ◌++◌, none, some, length, ok, arith,
  Option-cases, Text, text_beq, text_beq_iff, text_eq, nat_eq,
}
use garden_linux.Common.Map
use garden_linux.Common.Map.{Map}
use garden_linux.Names.{generate, bridge_name}
use garden_linux.Names.Distinct.{bridge_name_repeats}
use garden_linux.Subnets.Address.{IpNet, net_eq, net_beq_iff, gateway_ip}
use garden_linux.Bridges.{Devices, Manager, new, reserve, rereserve, add_owner, owners_of, List}
use garden_linux.Bridges.Invariant.{IsValid}

bridge_after :
    (d : Devices) (s : IpNet) (a name : Text) (m : Manager) (k : d.Kernel)
    → (reserve d s a m k).2 ≡ ok name
    → Map.lookup s (reserve d s a m k).0.subnet_bridge ≡ some name
unfolding reserve add_owner
bridge_after d s a name m k e =
    ground (arith, Map.lookup-insert s s (generate m.names).0 m.subnet_bridge, net_beq_iff s s)

again :
    (d : Devices) (s : IpNet) (b name : Text) (m : Manager) (k : d.Kernel)
    → Map.lookup s m.subnet_bridge ≡ some name
    → reserve d s b m k ≡ (add_owner name b m, k, ok name)
unfolding reserve
again d s b name m k e = rw (e, reserve)

-- The bridge that `Reserve` returns is the subnet's from then on: the next container of the subnet
-- gets the same bridge, and the devices are left alone.
pub reserve_again :
    (d : Devices) (s : IpNet) (a b name : Text) (m : Manager) (k : d.Kernel)
    → (reserve d s a m k).2 ≡ ok name
    → reserve d s b (reserve d s a m k).0 (reserve d s a m k).1
      ≡ (add_owner name b (reserve d s a m k).0, (reserve d s a m k).1, ok name)
reserve_again d s a b name m k e = again d s b name _ _ (bridge_after d s a name m k e)

owner_added :
    (name a : Text) (m : Manager)
    → (old : List Text) × (owners_of (Map.lookup name (add_owner name a m).owners) ≡ old ++ a ∷ [])
unfolding add_owner owners_of
owner_added name a m = (
  owners_of (Map.lookup name m.owners),
  ground (
    arith,
    Map.lookup-insert name name (owners_of (Map.lookup name m.owners) ++ a ∷ []) m.owners,
    text_beq_iff name name,
  ),
)

-- The container is the last owner of the bridge that was reserved for it.
pub reserve_owner :
    (d : Devices) (s : IpNet) (a name : Text) (m : Manager) (k : d.Kernel)
    → (reserve d s a m k).2 ≡ ok name
    → (old : List Text) × (owners_of (Map.lookup name (reserve d s a m k).0.owners) ≡ old ++ a ∷ [])
unfolding reserve add_owner
reserve_owner d s a name m k e = elim (Option-cases (Map.lookup s m.subnet_bridge)) [
  | inr (n, has) ↦
      let own : n ≡ name = cc (rw (reserve, has) at e) in
      rw (reserve, has, own) (owner_added name a m)
  | inl new_subnet ↦ elim (Option-cases (gateway_ip s)) [
    | inl broken ↦ absurd (cc (rw (reserve, new_subnet, broken) at e))
    | inr (g, gateway) ↦ elim (Option-cases (d.create (generate m.names).0 g s k).1) [
      | inr (x, bad) ↦ absurd (cc (rw (reserve, new_subnet, gateway, bad) at e))
      | inl fine ↦
          let own : (generate m.names).0 ≡ name =
            cc (rw (reserve, new_subnet, gateway, fine) at e) in
          rw (reserve, new_subnet, gateway, fine, own) (owner_added name a m)
    ]
  ]
]

-- In a manager whose maps agree, a subnet that has a bridge already is given another one by
-- `Rereserve`, if the other one is unknown and has a name; the maps then agree no more.
pub rereserve_second :
    (m : Manager) (old name id : Text) (s : IpNet)
    → IsValid m
    → Map.lookup s m.subnet_bridge ≡ some old
    → Map.lookup name m.bridge_subnet ≡ none
    → name ≢ []
    → ((rereserve name s id m).1 ≡ ok tt) × (¬ IsValid (rereserve name s id m).0)
unfolding rereserve add_owner
rereserve_second m old name id s v has unknown named =
    let in_use = v.to_subnet s old has in
    let unnamed : text_beq name [] ≡ false = ground (arith, text_beq_iff name []) in
    let old_kept : Map.lookup old (rereserve name s id m).0.bridge_subnet ≡ some s =
      rw (unnamed, unknown)
        (ground (arith, Map.lookup-insert name old s m.bridge_subnet, text_beq_iff name old)) in
    let new_kept : Map.lookup s (rereserve name s id m).0.subnet_bridge ≡ some name =
      rw (unnamed, unknown)
        (ground (arith, Map.lookup-insert s s name m.subnet_bridge, net_beq_iff s s)) in
    (rw (unnamed, unknown), λ w. cc (w.to_bridge old s old_kept))

-- With a prefix of five characters (a tag of two), a fresh manager whose counter starts at a
-- multiple of 32 gives its first two subnets the same bridge, for two different subnets that have
-- gateway addresses, if `Create` does not fail.
pub reserve_repeats :
    (d : Devices) (prefix a b : Text) (num : ℕ) (s t : IpNet) (g h : ℕ) (k : d.Kernel)
    → length prefix ≡ 5
    → num % 32 ≡ 0
    → s ≢ t
    → gateway_ip s ≡ some g
    → gateway_ip t ≡ some h
    → ((n : Text) (i : ℕ) (u : IpNet) (k' : d.Kernel) → (d.create n i u k').1 ≡ none)
    → let first = reserve d s a (new prefix num) k in
      (first.2 ≡ ok (bridge_name prefix num))
      × ((reserve d t b first.0 first.1).2 ≡ ok (bridge_name prefix num))
unfolding reserve new generate add_owner Map.lookup Map.insert
reserve_repeats d prefix a b num s t g h k five mult ne gs gt fine =
    let same = bridge_name_repeats prefix num 1 five mult (omega arith) in
    let one = fine (bridge_name prefix num) g s k in
    let two = fine (bridge_name prefix (num + 1)) h t (d.create (bridge_name prefix num) g s k).0 in
    ground (arith, net_beq_iff s t)
