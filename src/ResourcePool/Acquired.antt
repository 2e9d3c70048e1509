-- ===== src/ResourcePool/Acquired.antt =====
-- What Acquire leaves when it fails.
use garden_linux.Common.{
  ℕ, ◌≡◌, inl, inr, refl, sym, ap, ◌∙◌, List, [], ◌∷◌, ◌++◌, Option, none, some, ok, err, Text,
  codes, text_eq, nat_eq, Outcome-cases,
}
use garden_linux.Subnets.Pool.Separate.{total}
use garden_linux.Subnets.Pool.Selected.{IsValid}
use garden_linux.Bridges.{Manager}
use garden_linux.ResourcePool.{
  Resources, Pools, PoolError, release_pool_resources, acquire_pool_resources,
}
use garden_linux.ResourcePool.Teardown.{System}
use garden_linux.Bridges.Sharing.{reserve_owner}
use garden_linux.Common.Map
use garden_linux.Common.Map.{Map}
use garden_linux.Subnets.Pool.{Network}
use garden_linux.Bridges.{reserve, owners_of}
use garden_linux.ResourcePool.Snapshots.{container_path}
use garden_linux.ResourcePool.{system_failed}
use garden_linux.ResourcePool.Creation.{
  setup_rootfs, setup_bridge, setup_container_directories, try_release_system_resources, get_handle,
  Request, Settings, Creation,
}
use garden_linux.ResourcePool.Acquiring.{
  acquire, acquire_system, acquire_system_resources, check_acquired,
}
use garden_linux.ResourcePool.Undo.{
  IsParser, release-acquire_pool_resources, acquire_pool_resources_fails,
}

-- The same ports, and the same addresses in a valid subnet pool.
pub record SameShare (p q : Pools) : Type 0 where
  pub ports : q.ports ≡ p.ports
  pub valid : IsValid q.subnets
  pub addresses : (x : ℕ) → total x q.subnets.allocated ≡ total x p.subnets.allocated

module _ {s : System} {Version : Type 0} (c : Creation s) (settings : Settings Version)
    (show_version : Version → Text) where
  -- A failure gives back the share, but for the bridges.
  acquire_system_fails :
      (filter_failed : Option Text) (id : Text) (q : Request) (r : Resources) (p : Pools)
      (k : s.devices.Kernel) (e : PoolError)
      → (acquire_system c settings show_version filter_failed id q r p k).2 ≡ err e
      → (m : Manager) × ((acquire_system c settings show_version filter_failed id q r p k).0
          ≡ release_pool_resources r (record p { bridges = m }))
  unfolding acquire_system
  acquire_system_fails filter_failed id q r p k e failed =
      let (m, k₁, acquired) = acquire_system_resources c settings show_version id q r p.bridges k in
      elim (Outcome-cases acquired) [
        | inr (inl (x, bad)) ↦ (m, rw (acquire_system, bad) refl)
        | inr (inr stuck) ↦ absurd (cc (rw (acquire_system, stuck) at failed))
        | inl ((rootfs, env, bridge), fine) ↦
            elim (Outcome-cases (check_acquired c settings show_version filter_failed q env)) [
              | inl (all, good) ↦ absurd (cc (rw (acquire_system, fine, good) at failed))
              | inr (inr stuck) ↦ absurd (cc (rw (acquire_system, fine, stuck) at failed))
              | inr (inl (x, bad)) ↦
                  ((try_release_system_resources c id m k₁).0, rw (acquire_system, fine, bad) refl)
            ]
      ]

  shared :
      (r : Resources) (p p₁ q : Pools) (m : Manager)
      → q ≡ release_pool_resources r (record p₁ { bridges = m })
      → IsValid (release_pool_resources r p₁).subnets
      → ((x : ℕ)
          → total x (release_pool_resources r p₁).subnets.allocated ≡ total x p.subnets.allocated)
      → (release_pool_resources r p₁).ports ≡ p.ports
      → SameShare p q
  unfolding release_pool_resources
  shared r p p₁ q m e v same ports = rw e (record { ports = ports; valid = v; addresses = same })

  -- When `Acquire` of the resource pool fails, wherever, the ports are as before, the subnet pool
  -- is valid and every address is allocated as often as before; for a valid subnet pool and a
  -- parser that returns masked networks.
  pub acquire_fails-SameShare :
      (Limits Process NetOut : Type 0) (limits : Limits) (id : Text) (q : Request) (p : Pools)
      (k : s.devices.Kernel) (e : PoolError)
      → IsParser c.parse_cidr
      → IsValid p.subnets
      → (acquire c settings show_version {Process = Process} {NetOut = NetOut} limits id q p k).2
        ≡ err e
      → SameShare p
          (acquire c settings show_version {Process = Process} {NetOut = NetOut} limits id q p k).0
  unfolding acquire
  acquire_fails-SameShare Limits Process NetOut limits id q p k e is v failed =
      let (k₁, filter_failed) = c.setup_filter id (get_handle q.handle id) k in
      let (p₁, pooled) =
        acquire_pool_resources c.parse_cidr settings.mapped_root settings.external_ip q.network
          q.privileged p in
      elim (Outcome-cases pooled) [
        | inr (inr stuck) ↦ absurd (cc (rw (acquire, stuck) at failed))
        | inr (inl (x, bad)) ↦
            let same : p₁ ≡ p =
              acquire_pool_resources_fails c.parse_cidr settings.mapped_root settings.external_ip
                q.network q.privileged p p₁ x (ap (λ o. (p₁, o)) bad) in
            rw (acquire, bad, same) (record { ports = refl; valid = v; addresses = λ x. refl })
        | inl (r, fine) ↦
            let (valid, same, ports, _) =
              release-acquire_pool_resources c.parse_cidr settings.mapped_root settings.external_ip
                q.network q.privileged p p₁ r is v (ap (λ o. (p₁, o)) fine) in
            elim (Outcome-cases
              (acquire_system c settings show_version filter_failed id q r p₁ k₁).2) [
                | inl (done, good) ↦ absurd (cc (rw (acquire, fine, good) at failed))
                | inr (inr stuck) ↦ absurd (cc (rw (acquire, fine, stuck) at failed))
                | inr (inl (x, bad)) ↦
                    let (m, left) = acquire_system_fails filter_failed id q r p₁ k₁ x bad in
                    rw (acquire, fine, bad) (shared r p p₁ _ m left valid same ports)
              ]
      ]

  -- When the name of a bridge that was reserved cannot be written to its file, the system's
  -- resources are refused, but the bridges stay as `Reserve` left them: the container is the last
  -- owner of the bridge.
  pub bridge_name_fails :
      (id : Text) (q : Request) (r : Resources) (m m' : Manager) (network : Network)
      (k k₁ k₂ k₃ k₄ : s.devices.Kernel) (made : Text × Map Text Text) (name e : Text)
      → c.make_directory (container_path settings.depot id) k ≡ (k₁, none)
      → setup_rootfs c id q r k₁ ≡ (k₂, ok made)
      → r.network ≡ some network
      → reserve s.devices network.subnet id m k₂ ≡ (m', k₃, ok name)
      → c.write_file (container_path settings.depot id ++ codes "/bridge-name") name k₃
        ≡ (k₄, some e)
      → let (left, _, out) = acquire_system_resources c settings show_version id q r m k in
        (out ≡ err system_failed)
        × (left ≡ m')
        × ((old : List Text) × (owners_of (Map.lookup name left.owners) ≡ old ++ id ∷ []))
  unfolding acquire_system_resources setup_container_directories setup_bridge
  bridge_name_fails id q r m m' network k k₁ k₂ k₃ k₄ made name e dir rootfs net reserved
        unwritten =
      let owner = reserve_owner s.devices network.subnet id name m k₂ (ap (λ o. o.2) reserved) in
      let same : (reserve s.devices network.subnet id m k₂).0 ≡ m' = ap (λ o. o.0) reserved in
      let bridged : setup_bridge c (container_path settings.depot id) id network m k₂
          ≡ (m', k₄, err system_failed) =
        simp (setup_bridge, reserved, unwritten) in
      let set_up : setup_container_directories c (container_path settings.depot id) id q r m k₁
          ≡ (m', (s.destroy_rootfs id k₄).0, err system_failed) =
        simp (setup_container_directories, rootfs, net, bridged) in
      let all : acquire_system_resources c settings show_version id q r m k ≡ (
        m',
        c.remove_directory (container_path settings.depot id) (s.destroy_rootfs id k₄).0,
        err system_failed,
      ) =
        simp (acquire_system_resources, dir, set_up) in
      (
        ap (λ o. o.2) all,
        ap (λ o. o.0) all,
        (
          owner.0,
          ap (λ (n : Manager). owners_of (Map.lookup name n.owners)) (ap (λ o. o.0) all ∙ sym same)
              ∙ owner.1,
        ),
      )
