-- ===== src/ResourcePool/Released.antt =====
-- When the pools agree with what the containers hold, and Release of resource_pool.go.
use garden_linux.Common.{
  ℕ, ◌<◌, ◌≡◌, ◌≢◌, ◌⊎◌, inl, inr, refl, List, ◌++◌, some, count, ok, arith, Option-cases, Text,
  text_eq, nat_eq, Outcome-cases,
}
use garden_linux.PortPool.Ownership.{IsShared}
use garden_linux.Subnets.Address.{IpNet}
use garden_linux.Subnets.Pool.{Network, Pool}
use garden_linux.Subnets.Pool as Subnets
use garden_linux.Subnets.Pool.Separate.{total}
use garden_linux.Subnets.Pool.Selected.{IsValid}
use garden_linux.Bridges.{Devices, Manager, BridgeError, rereserve, owners_of}
use garden_linux.Bridges as Bridges
use garden_linux.ResourcePool.{Resources, Pools, release_network, release_pool_resources}
use garden_linux.ResourcePool.Teardown.{System, release, release_system_resources}
use garden_linux.Subnets.Pool.Release.{release_cases, release-IsValid}
use garden_linux.Bridges.Invariant.{IsValid as Agree}
use garden_linux.Bridges.Release.{release-Manager-IsValid}
use garden_linux.ResourcePool.Held.{release_ports-IsShared}

-- `held` lists the ports that containers hold.
pub record IsConsistent (p : Pools) (held : List ℕ) : Type 0 where
  pub ports : IsShared p.ports held
  pub subnets : IsValid p.subnets
  pub bridges : Agree p.bridges

bridges-IsValid :
    (s : System) (id : Text) (m : Manager) (k : s.devices.Kernel)
    → Agree m
    → Agree (release_system_resources s id m k).0
unfolding release_system_resources
bridges-IsValid s id m k v = elim (Option-cases (s.read_bridge_name id k)) [
  | inl missing ↦ rw (missing, release_system_resources) v
  | inr (name, found) ↦
      let valid = release-Manager-IsValid s.devices name id m k v in
      elim (Outcome-cases (Bridges.release s.devices name id m k).2) [
        | inl (_, done) ↦ rw (found, done, release_system_resources) valid
        | inr (inl (x, failed)) ↦ rw (found, failed, release_system_resources) valid
        | inr (inr stuck) ↦ rw (found, stuck, release_system_resources) valid
      ]
]

release_network-some :
    (p : Pool) (s : IpNet) (w : ℕ)
    → IsValid p
    → 0 < count w (Subnets.get p.allocated s)
    → IsValid (release_network (some (record { subnet = s; ip = some w })) p)
      × (total w (release_network (some (record { subnet = s; ip = some w })) p).allocated ≡ 0)
unfolding release_network
release_network-some p s w v h = elim (release_cases p s w) [
  | inl (absent, _) ↦ absurd (omega arith)
  | inr (i, _, done) ↦
      let (valid, gone, _) = release-IsValid p _ s w v done in
      rw (done, release_network) (valid, gone)
]

-- `Release` of a container either fails and leaves its ports and its network with it, or succeeds,
-- and then its ports are held no more and its address is allocated no more; the pools agree either
-- way with what is held; for a container whose address is allocated and whose ports are held.
pub release-IsConsistent :
    (s : System) (id : Text) (r : Resources) (p : Pools) (k : s.devices.Kernel) (held : List ℕ)
    (subnet : IpNet) (ip : ℕ)
    → IsConsistent p (r.ports ++ held)
    → r.network ≡ some (record { subnet = subnet; ip = some ip })
    → 0 < count ip (Subnets.get p.subnets.allocated subnet)
    → let out = release s id r p k in
      ((out.2 ≡ ok tt) × IsConsistent out.0 held × (total ip out.0.subnets.allocated ≡ 0))
      ⊎ ((out.2 ≢ ok tt)
          × IsConsistent out.0 (r.ports ++ held)
          × (out.0.ports ≡ p.ports)
          × (out.0.subnets ≡ p.subnets))
unfolding release release_pool_resources
release-IsConsistent s id r p k held subnet ip c net h =
    let bridges = bridges-IsValid s id p.bridges k c.bridges in
    elim (Outcome-cases (release_system_resources s id p.bridges k).2) [
      | inl (_, done) ↦
          let (valid, gone) = release_network-some p.subnets subnet ip c.subnets h in
          inl (
            rw (done, release)
              (
                refl,
                record {
                  ports = release_ports-IsShared r.ports held p.ports c.ports;
                  subnets = rw net valid;
                  bridges = bridges;
                },
                rw net gone,
              ))
      | inr (inl (x, failed)) ↦ inr (
          rw (failed, release)
            (
              λ e. cc,
              record { ports = c.ports; subnets = c.subnets; bridges = bridges },
              refl,
              refl,
            ))
      | inr (inr stuck) ↦ inr (
          rw (stuck, release)
            (
              λ e. cc,
              record { ports = c.ports; subnets = c.subnets; bridges = bridges },
              refl,
              refl,
            ))
    ]
