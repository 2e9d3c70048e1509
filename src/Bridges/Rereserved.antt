-- ===== src/Bridges/Rereserved.antt =====
-- What Rereserve of mgr.go leaves, by its result.
use garden_linux.Common.{
  ◌≡◌, ◌≢◌, inl, inr, refl, [], ◌∷◌, ◌++◌, some, ok, err, panic, arith, Bool-cases, Option-cases,
  Text, text_beq, text_beq_iff, text_eq, nat_eq,
}
use garden_linux.Common.Map
use garden_linux.Common.Map.{Map}
use garden_linux.Subnets.Address.{IpNet, net_eq, net_beq, net_beq_iff}
use garden_linux.Bridges.{Manager, BridgeError, rereserve, add_owner, owners_of}

-- A bridge that is refused leaves the manager as it was.
pub rereserve_refused :
    (name id : Text) (s : IpNet) (m : Manager) (e : BridgeError)
    → (rereserve name s id m).1 ≡ err e
    → (rereserve name s id m).0 ≡ m
unfolding rereserve
rereserve_refused name id s m e h = elim (Bool-cases (text_beq name [])) [
  | inl empty ↦ rw empty refl
  | inr named ↦ elim (Option-cases (Map.lookup name m.bridge_subnet)) [
    | inl new ↦ absurd (ground (arith, rw (named, new) at h))
    | inr (sn, old) ↦ elim (Bool-cases (net_beq sn s)) [
      | inl same ↦ absurd (ground (arith, rw (named, old, same) at h))
      | inr other ↦ rw (named, old, other) refl
    ]
  ]
]

taken_parts :
    (name id : Text) (s : IpNet) (m : Manager)
    → (rereserve name s id m).1 ≡ ok tt
    → (rereserve name s id m).0 ≡ record (add_owner name id m) {
      subnet_bridge = Map.insert s name m.subnet_bridge;
      bridge_subnet = Map.insert name s m.bridge_subnet;
    }
unfolding rereserve
taken_parts name id s m h = elim (Bool-cases (text_beq name [])) [
  | inl empty ↦ absurd (ground (arith, rw empty at h))
  | inr named ↦ elim (Option-cases (Map.lookup name m.bridge_subnet)) [
    | inl new ↦ rw (named, new) refl
    | inr (sn, old) ↦ elim (Bool-cases (net_beq sn s)) [
      | inl same ↦ rw (named, old, same) refl
      | inr other ↦ absurd (ground (arith, rw (named, old, other) at h))
    ]
  ]
]

-- A bridge that is taken back has the subnet, and the container as its last owner.
pub rereserve_taken :
    (name id : Text) (s : IpNet) (m : Manager)
    → (rereserve name s id m).1 ≡ ok tt
    → let q = (rereserve name s id m).0 in
      (Map.lookup name q.bridge_subnet ≡ some s)
      × (Map.lookup s q.subnet_bridge ≡ some name)
      × (owners_of (Map.lookup name q.owners) ≡ owners_of (Map.lookup name m.owners) ++ id ∷ [])
unfolding add_owner owners_of
rereserve_taken name id s m h = rw (taken_parts name id s m h) (
  ground (arith, Map.lookup-insert name name s m.bridge_subnet, text_beq_iff name name),
  ground (arith, Map.lookup-insert s s name m.subnet_bridge, net_beq_iff s s),
  ground (
    arith,
    Map.lookup-insert name name (owners_of (Map.lookup name m.owners) ++ id ∷ []) m.owners,
    text_beq_iff name name,
  ),
)

pub rereserve_total : (name id : Text) (s : IpNet) (m : Manager) → (rereserve name s id m).1 ≢ panic
unfolding rereserve
rereserve_total name id s m h = elim (Bool-cases (text_beq name [])) [
  | inl empty ↦ ground (arith, rw empty at h)
  | inr named ↦ elim (Option-cases (Map.lookup name m.bridge_subnet)) [
    | inl new ↦ ground (arith, rw (named, new) at h)
    | inr (sn, old) ↦ elim (Bool-cases (net_beq sn s)) [
      | inl same ↦ ground (arith, rw (named, old, same) at h)
      | inr other ↦ ground (arith, rw (named, old, other) at h)
    ]
  ]
]
