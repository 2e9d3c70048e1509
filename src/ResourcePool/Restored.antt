-- ===== src/ResourcePool/Restored.antt =====
-- What Restore leaves in the pools, when it succeeds and when it fails.
use garden_linux.Common.{
  ℕ, ◌+◌, ◌<◌, ◌≡◌, ◌≢◌, ◌⊎◌, inl, inr, refl, sym, ap, ◌∙◌, true, List, [], ◌∷◌, ◌++◌, none, some,
  ◌==◌, if◌then◌else◌, count, Outcome, ok, err, arith, Text, text_eq, nat_eq, Outcome-cases,
}
use garden_linux.PortPool.{PortError, port_taken}
use garden_linux.PortPool.Ports.{slot}
use garden_linux.PortPool.Ownership.{remove_fails}
use garden_linux.Subnets.Address.{net_eq, IpNet}
use garden_linux.Subnets.Address.Range.{IsNet, Apart}
use garden_linux.Subnets.Selectors.Subnet.{OnGrid}
use garden_linux.Subnets.Errors.{overlaps_existing_subnet}
use garden_linux.Subnets.Pool.{Network, Pool}
use garden_linux.Subnets.Pool as Subnets
use garden_linux.Subnets.Pool.Separate.{is_usable, EqualOrApart, total}
use garden_linux.Subnets.Pool.Selected.{IsValid}
use garden_linux.Subnets.Pool.Remove.{remove_cases, remove-IsValid, release-remove}
use garden_linux.Bridges.{Manager, BridgeError, rereserve, owners_of}
use garden_linux.Bridges.Invariant.{rereserve-IsValid}
use garden_linux.Bridges.Rereserved.{rereserve_total, rereserve_taken, rereserve_refused}
use garden_linux.Common.Map
use garden_linux.Common.Map.{Map}
use garden_linux.ResourcePool.{
  Pools, PoolError, subnet_failed, port_failed, bridge_failed, release_ports, release_network,
}
use garden_linux.ResourcePool.Snapshots.{ResourcesSnapshot, remove_ports, restore_pools}
use garden_linux.ResourcePool.Held.{
  remove_ports_total, remove_ports-IsShared, release_ports-free, remove_ports-stops,
}
use garden_linux.ResourcePool.Undo.{release_network-ok}
use garden_linux.ResourcePool.Released.{IsConsistent}

-- A network that can be taken back: its subnet is masked, a block of the dynamic range or apart
-- from it, and equal to or apart from each allocated subnet, and its address is usable.
pub record IsRestorable (p : Pool) (s : IpNet) (w : ℕ) : Type 0 where
  pub net : IsNet s
  pub place : OnGrid p.dynamic_range s ⊎ Apart p.dynamic_range s
  pub others : EqualOrApart s p.allocated
  pub usable : is_usable s w ≡ true

abbrev network : IpNet → ℕ → Network
network s w = record { subnet = s; ip = some w }

abbrev enlarged : Pool → IpNet → ℕ → Pool
enlarged p s w = record p {
  allocated = Map.insert s (Subnets.get p.allocated s ++ w ∷ []) p.allocated;
}

module _ (id : Text) (r : ResourcesSnapshot) (p : Pools) (s : IpNet) (w : ℕ) where
  abbrev reserved : Manager × Outcome BridgeError (Unit {0})
  reserved = rereserve r.bridge s id p.bridges

  -- The outcomes of the steps on the pools for a network with an address.
  restore_cases :
      r.network ≡ some (network s w)
      → ((0 < count w (Subnets.get p.subnets.allocated s))
          × (restore_pools id r p ≡ (p, err (subnet_failed overlaps_existing_subnet))))
        ⊎ ((q : Pool) × (e : BridgeError) × (Subnets.remove p.subnets (network s w) ≡ ok q)
            × (reserved.1 ≡ err e)
            × (restore_pools id r p ≡ (
              record p { subnets = release_network (some (network s w)) q; bridges = reserved.0 },
              err (bridge_failed e),
            )))
        ⊎ ((q : Pool) × (e : PortError) × (Subnets.remove p.subnets (network s w) ≡ ok q)
            × (reserved.1 ≡ ok tt)
            × ((remove_ports r.ports p.ports).1 ≡ err e)
            × (restore_pools id r p ≡ (
              record {
                ports = release_ports r.ports (remove_ports r.ports p.ports).0;
                subnets = release_network (some (network s w)) q;
                bridges = reserved.0;
              },
              err (port_failed e),
            )))
        ⊎ ((q : Pool) × (Subnets.remove p.subnets (network s w) ≡ ok q)
            × (reserved.1 ≡ ok tt)
            × ((remove_ports r.ports p.ports).1 ≡ ok tt)
            × (restore_pools id r p ≡ (
              record {
                ports = (remove_ports r.ports p.ports).0;
                subnets = q;
                bridges = reserved.0;
              },
              ok tt,
            )))
  unfolding restore_pools
  restore_cases net = elim (remove_cases p.subnets s w) [
    | inl (here, failed) ↦ inl (here, rw (restore_pools, net, failed) refl)
    | inr (_, done) ↦ elim (Outcome-cases reserved.1) [
      | inr (inl (e, refused)) ↦ inr (
          inl
            (enlarged p.subnets s w, e, done, refused, rw (restore_pools, net, done, refused) refl))
      | inr (inr stuck) ↦ absurd (rereserve_total r.bridge id s p.bridges stuck)
      | inl (_, taken) ↦ elim (Outcome-cases (remove_ports r.ports p.ports).1) [
        | inr (inl (e, failed)) ↦ inr (
            inr (
              inl (
                enlarged p.subnets s w,
                e,
                done,
                taken,
                failed,
                rw (restore_pools, net, done, taken, failed) refl,
              )))
        | inr (inr stuck) ↦ absurd (remove_ports_total r.ports p.ports stuck)
        | inl (_, removed) ↦ inr (
            inr (
              inr (
                enlarged p.subnets s w,
                done,
                taken,
                removed,
                rw (restore_pools, net, done, taken, removed) refl,
              )))
      ]
    ]
  ]

-- The bridge of a restored container: its subnet has no other.
abbrev pub IsOnlyBridge : Manager → IpNet → Text → Type 0
IsOnlyBridge m s name =
    (Map.lookup s m.subnet_bridge ≡ none) ⊎ (Map.lookup s m.subnet_bridge ≡ some name)

-- When the steps of `Restore` on the pools succeed, the ports of the snapshot are held, its
-- address is the only one whose allocation changes, its bridge has its subnet and one owner more,
-- and the pools agree with what is held; for a network that can be taken back and a subnet that
-- has no other bridge.
pub restore_pools-IsConsistent :
    (id : Text) (r : ResourcesSnapshot) (p q : Pools) (s : IpNet) (w : ℕ) (held : List ℕ)
    → IsConsistent p held
    → r.network ≡ some (record { subnet = s; ip = some w })
    → IsRestorable p.subnets s w
    → IsOnlyBridge p.bridges s r.bridge
    → restore_pools id r p ≡ (q, ok tt)
    → IsConsistent q (r.ports ++ held)
      × ((x : ℕ)
          → total x q.subnets.allocated ≡ total x p.subnets.allocated + (if w == x then 1 else 0))
      × (Map.lookup r.bridge q.bridges.bridge_subnet ≡ some s)
      × (owners_of (Map.lookup r.bridge q.bridges.owners)
          ≡ owners_of (Map.lookup r.bridge p.bridges.owners) ++ id ∷ [])
restore_pools-IsConsistent id r p q s w held c net a b e = elim (restore_cases id r p s w net) [
  | inl (x, failed) ↦ absurd (cc)
  | inr (inl (x, y, z, refused, failed)) ↦ absurd (cc)
  | inr (inr (inl (x, y, z, taken, t, failed))) ↦ absurd (cc)
  | inr (inr (inr (u, removed, taken, ports, done))) ↦
      let same : q ≡ record {
        ports = (remove_ports r.ports p.ports).0;
        subnets = u;
        bridges = (rereserve r.bridge s id p.bridges).0;
      } =
        ap (λ o. o.0) (sym e ∙ done) in
      let (valid, counts) =
        remove-IsValid p.subnets u s w c.subnets a.net a.place a.others a.usable removed in
      let (kept, _, owners) = rereserve_taken r.bridge id s p.bridges taken in
      rw same (
        record {
          ports = remove_ports-IsShared r.ports held p.ports _ (ground (arith, ports)) c.ports;
          subnets = valid;
          bridges = rereserve-IsValid p.bridges r.bridge id s c.bridges b;
        },
        counts,
        kept,
        owners,
      )
]

-- When the network or the bridge is refused, no port and no bridge is taken, and every address is
-- allocated as often as before; for a valid subnet pool and a network that can be taken back.
pub restore_pools_refused :
    (id : Text) (r : ResourcesSnapshot) (p q : Pools) (s : IpNet) (w : ℕ) (e : PoolError)
    → IsValid p.subnets
    → r.network ≡ some (record { subnet = s; ip = some w })
    → IsRestorable p.subnets s w
    → restore_pools id r p ≡ (q, err e)
    → ((x : PortError) → e ≢ port_failed x)
    → (q.ports ≡ p.ports)
      × (q.bridges ≡ p.bridges)
      × IsValid q.subnets
      × ((x : ℕ) → total x q.subnets.allocated ≡ total x p.subnets.allocated)
restore_pools_refused id r p q s w e v net a h n = elim (restore_cases id r p s w net) [
  | inl (x, failed) ↦
      let same : q ≡ p = ap (λ o. o.0) (sym h ∙ failed) in rw same (refl, refl, v, λ x. refl)
  | inr (inl (u, x, removed, refused, failed)) ↦
      let (back, freed, vb, counts) =
        release-remove p.subnets u s w v a.net a.place a.others a.usable removed in
      let same : q ≡ record p {
        subnets = release_network (some (record { subnet = s; ip = some w })) u;
        bridges = (rereserve r.bridge s id p.bridges).0;
      } =
        ap (λ o. o.0) (sym h ∙ failed) in
      let left = release_network-ok u back (record { subnet = s; ip = some w }) freed in
      rw same
        (refl, rereserve_refused r.bridge id s p.bridges x refused, rw left vb, rw left counts)
  | inr (inr (inl (x, y, z, taken, t, failed))) ↦ absurd (n y (ground (arith, sym h ∙ failed)))
  | inr (inr (inr (u, removed, taken, ports, done))) ↦ absurd (cc (sym h ∙ done))
]

-- A port of the pool's range that another container holds makes `Restore` fail, and is handed out
-- again afterwards: it is free, although it is held. The container also stays an owner of the
-- bridge. For pools that agree with what is held, a snapshot that names the port first, a network
-- that is not allocated, and a bridge that is not refused.
pub restore_pools_taken :
    (id : Text) (r : ResourcesSnapshot) (p : Pools) (s : IpNet) (w port : ℕ) (ports held : List ℕ)
    → IsConsistent p held
    → r.network ≡ some (record { subnet = s; ip = some w })
    → r.ports ≡ port ∷ ports
    → 0 < count port held
    → count w (Subnets.get p.subnets.allocated s) ≡ 0
    → (rereserve r.bridge s id p.bridges).1 ≡ ok tt
    → let out = restore_pools id r p in
      (out.1 ≡ err (port_failed (port_taken port)))
      × (0 < count port out.0.ports.pool)
      × (owners_of (Map.lookup r.bridge out.0.bridges.owners)
          ≡ owners_of (Map.lookup r.bridge p.bridges.owners) ++ id ∷ [])
restore_pools_taken id r p s w port ports held c net first h free taken =
    let held_once : count port held ≡ slot p.ports port = ground (arith, c.ports.once port) in
    let stops = (remove_fails p.ports held port c.ports).1 held_once in
    let stuck : remove_ports r.ports p.ports ≡ (p.ports, err (port_taken port)) =
      rw first (remove_ports-stops port ports p.ports _ stops) in
    elim (restore_cases id r p s w net) [
      | inl (here, failed) ↦ absurd (omega arith)
      | inr (inl (x, y, z, refused, failed)) ↦ absurd (cc)
      | inr (inr (inr (u, removed, _, fine, done))) ↦ absurd (cc)
      | inr (inr (inl (u, y, removed, _, error, failed))) ↦
          let (_, _, owners) = rereserve_taken r.bridge id s p.bridges taken in
          let which : y ≡ port_taken port = ground (arith, error, stuck) in
          rw failed (
            rw which refl,
            rw (stuck, first)
                (release_ports-free port ports p.ports c.ports.bounded (ground arith)
                  (ground arith)),
            owners,
          )
    ]
