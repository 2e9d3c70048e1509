-- ===== src/Bridges/Invariant.antt =====
-- When the three maps of the manager agree, for `Reserve` and `Rereserve`.
use garden_linux.Common.{
  ℕ, ◌≡◌, ◌≢◌, refl, [], ◌∷◌, ◌++◌, none, some, Text, text_beq_iff, text_eq, arith, ◌⊎◌,
  Option-cases, inr, Bool-cases, inl, snoc-ne-nil,
}
use garden_linux.Common.Map
use garden_linux.Common.Map.{Map}
use garden_linux.Subnets.Address.{IpNet, net_eq, net_beq_iff}
use garden_linux.Names.{BridgeNameGenerator, generate}
use garden_linux.Bridges.{
  reserve, rereserve, Devices, Manager, owners_of, add_owner, new, text_beq, gateway_ip, net_beq,
}

-- A bridge has a subnet exactly if the subnet has the bridge, and then it has an owner.
pub record IsValid (m : Manager) : Type 0 where
  pub to_subnet :
      (s : IpNet) (n : Text)
      → Map.lookup s m.subnet_bridge ≡ some n
      → Map.lookup n m.bridge_subnet ≡ some s
  pub to_bridge :
      (n : Text) (s : IpNet)
      → Map.lookup n m.bridge_subnet ≡ some s
      → Map.lookup s m.subnet_bridge ≡ some n
  pub owned :
      (n : Text) (s : IpNet)
      → Map.lookup n m.bridge_subnet ≡ some s
      → owners_of (Map.lookup n m.owners) ≢ []
  pub known : (n : Text) → Map.lookup n m.bridge_subnet ≡ none → Map.lookup n m.owners ≡ none

pub new-IsValid : (prefix : Text) (num : ℕ) → IsValid (new prefix num)
unfolding new Map.lookup owners_of
new-IsValid prefix num = record {
  to_subnet = λ s n e. cc;
  to_bridge = λ n s e. cc;
  owned = λ n s e. cc;
  known = λ n e. refl;
}

-- One more owner of a bridge that is in use.
add_owner-IsValid :
    (m : Manager) (name id : Text) (s : IpNet)
    → IsValid m
    → Map.lookup name m.bridge_subnet ≡ some s
    → IsValid (add_owner name id m)
unfolding add_owner owners_of
add_owner-IsValid m name id s v e = record {
  to_subnet = v.to_subnet;
  to_bridge = v.to_bridge;
  owned = λ n t h. ground (
    arith,
    Map.lookup-insert name n (owners_of (Map.lookup name m.owners) ++ id ∷ []) m.owners,
    v.owned n t h,
    snoc-ne-nil (owners_of (Map.lookup name m.owners)) id,
  );
  known = λ n h. ground (
    arith,
    Map.lookup-insert name n (owners_of (Map.lookup name m.owners) ++ id ∷ []) m.owners,
    text_beq_iff name n,
    v.known n h,
  );
}

-- The manager with the bridge recorded for the subnet.
abbrev recorded : Manager → Text → IpNet → Manager
recorded m name s = record m {
  subnet_bridge = Map.insert s name m.subnet_bridge;
  bridge_subnet = Map.insert name s m.bridge_subnet;
}

-- A bridge and a subnet that are both new, or one another's already, and an owner of the bridge.
recorded-IsValid :
    (m : Manager) (name id : Text) (s : IpNet)
    → IsValid m
    → (Map.lookup name m.bridge_subnet ≡ none) ⊎ (Map.lookup name m.bridge_subnet ≡ some s)
    → (Map.lookup s m.subnet_bridge ≡ none) ⊎ (Map.lookup s m.subnet_bridge ≡ some name)
    → IsValid (add_owner name id (recorded m name s))
unfolding add_owner
recorded-IsValid m name id s v bn sb = record {
  to_subnet = λ t n h. ground (
    arith,
    Map.lookup-insert s t name m.subnet_bridge,
    Map.lookup-insert name n s m.bridge_subnet,
    net_beq_iff s t,
    text_beq_iff name n,
    v.to_subnet t n,
    v.to_bridge n s,
  );
  to_bridge = λ n t h. ground (
    arith,
    Map.lookup-insert s t name m.subnet_bridge,
    Map.lookup-insert name n s m.bridge_subnet,
    net_beq_iff s t,
    text_beq_iff name n,
    v.to_bridge n t,
    v.to_subnet s n,
  );
  owned = λ n t h. ground (
    arith,
    Map.lookup-insert name n s m.bridge_subnet,
    Map.lookup-insert name n (owners_of (Map.lookup name m.owners) ++ id ∷ []) m.owners,
    v.owned n t,
    snoc-ne-nil (owners_of (Map.lookup name m.owners)) id,
  );
  known = λ n h. ground (
    arith,
    Map.lookup-insert name n s m.bridge_subnet,
    Map.lookup-insert name n (owners_of (Map.lookup name m.owners) ++ id ∷ []) m.owners,
    v.known n,
  );
}

renamed-IsValid :
    (m : Manager) (g : BridgeNameGenerator) → IsValid m → IsValid (record m { names = g })
renamed-IsValid m g v = record {
  to_subnet = v.to_subnet;
  to_bridge = v.to_bridge;
  owned = v.owned;
  known = v.known;
}

-- `Reserve` keeps the maps in agreement, whatever `Create` does, if the name that the generator
-- delivers next is not in use.
pub reserve-IsValid :
    (d : Devices) (s : IpNet) (id : Text) (m : Manager) (k : d.Kernel)
    → IsValid m
    → Map.lookup (generate m.names).0 m.bridge_subnet ≡ none
    → IsValid (reserve d s id m k).0
unfolding reserve
reserve-IsValid d s id m k v fresh = elim (Option-cases (Map.lookup s m.subnet_bridge)) [
  | inr (name, e) ↦ rw (e, reserve) (add_owner-IsValid m name id s v (v.to_subnet s name e))
  | inl e ↦
      rw (e, reserve)
        (elim (Option-cases (gateway_ip s)) [
          | inl stuck ↦ rw (stuck) (renamed-IsValid m _ v)
          | inr (g, gw) ↦ elim (Option-cases (d.create (generate m.names).0 g s k).1) [
            | inr (x, failed) ↦ rw (gw, failed) (renamed-IsValid m _ v)
            | inl done ↦
                rw (gw, done)
                  (recorded-IsValid (record m { names = (generate m.names).1 }) (generate m.names).0
                    id s (renamed-IsValid m _ v) (inl fresh) (inl e))
          ]
        ])
]

-- `Rereserve` keeps the maps in agreement if the subnet has no other bridge.
pub rereserve-IsValid :
    (m : Manager) (name id : Text) (s : IpNet)
    → IsValid m
    → (Map.lookup s m.subnet_bridge ≡ none) ⊎ (Map.lookup s m.subnet_bridge ≡ some name)
    → IsValid (rereserve name s id m).0
unfolding rereserve
rereserve-IsValid m name id s v sb = elim (Bool-cases (text_beq name [])) [
  | inl empty ↦ rw empty v
  | inr named ↦ elim (Option-cases (Map.lookup name m.bridge_subnet)) [
    | inl e ↦ rw (named, e) (recorded-IsValid m name id s v (inl e) sb)
    | inr (sn, e) ↦ elim (Bool-cases (net_beq sn s)) [
      | inr other ↦ rw (named, e, other) v
      | inl same ↦
          rw (named, e, same)
            (recorded-IsValid m name id s v (inr (rw ((net_beq_iff sn s).0 same) at e)) sb)
    ]
  ]
]
