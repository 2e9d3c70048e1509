-- ===== src/ResourcePool/Specs.antt =====
-- Restore as a whole: the specification of a restored container, and a version that cannot be read.
use garden_linux.Common.{
  ℕ, ◌≡◌, inl, inr, [], some, Outcome, ok, arith, Text, text_eq, nat_eq, Outcome-cases,
}
use garden_linux.Common.Map
use garden_linux.ResourcePool.{Pools, PoolError}
use garden_linux.ResourcePool.Snapshots.{
  restore, restored_spec, ContainerSnapshot, LinuxContainerSpec, restore_pools,
}

module _ {Limits Process NetOut Version : Type 0} where
  -- A restored container has the id, handle, state, events, properties, ports, bridge and network
  -- of its snapshot, and its version is the one that its file names; its environment is empty,
  -- whatever the snapshot says. The pools are those of the steps on them.
  pub restore-ok :
      (depot : Text) (external_ip : ℕ) (version_of : Text → Outcome PoolError Version)
      (c : ContainerSnapshot Limits Process NetOut) (p q : Pools)
      (spec : LinuxContainerSpec Limits Process NetOut Version)
      → restore depot external_ip version_of (some c) p ≡ (q, ok spec)
      → (restore_pools c.id c.resources p ≡ (q, ok tt))
        × (version_of c.id ≡ ok spec.version)
        × (spec.id ≡ c.id)
        × (spec.handle ≡ c.handle)
        × (spec.state ≡ c.state)
        × (spec.events ≡ c.events)
        × (spec.properties ≡ c.properties)
        × (spec.resources.ports ≡ c.resources.ports)
        × (spec.resources.bridge ≡ c.resources.bridge)
        × (spec.resources.network ≡ c.resources.network)
        × (spec.env ≡ [])
  unfolding restore restored_spec
  restore-ok depot external_ip version_of c p q spec e =
      elim (Outcome-cases (restore_pools c.id c.resources p).1) [
        | inr (inl (x, failed)) ↦ absurd (ground arith)
        | inr (inr stuck) ↦ absurd (ground arith)
        | inl (_, done) ↦ elim (Outcome-cases (version_of c.id)) [
          | inr (inl (x, bad)) ↦ absurd (ground arith)
          | inr (inr stuck) ↦ absurd (ground arith)
          | inl (v, read) ↦ ground arith
        ]
      ]
