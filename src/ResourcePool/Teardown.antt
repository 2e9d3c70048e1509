-- ===== src/ResourcePool/Teardown.antt =====
-- Release of resource_pool.go: the system's resources of a container, and then its share of the
-- pools.
use garden_linux.Common.{
  Bool, false, ◌||◌, List, [], ◌∷◌, Option, none, some, if◌then◌else◌, Outcome, ok, err, panic,
  Text, codes, text_beq, text_eq, nat_eq,
}
use garden_linux.Bridges.{Devices, Manager, BridgeError}
use garden_linux.Bridges as Bridges
use garden_linux.ResourcePool.{
  Resources, Pools, PoolError, system_failed, bridge_failed, release_pool_resources,
}

-- What the pool calls: the files of the depot, iptables, destroy.sh, the root file systems and the
-- container's filter, over the state of the host. `none` is a nil error, or a file that cannot be
-- read.
pub record System : Type 1 where
  pub devices : Devices
  pub read_bridge_name : Text → devices.Kernel → Option Text
  pub read_rootfs_provider : Text → devices.Kernel → Option Text
  pub container_teardown : Text → devices.Kernel → devices.Kernel × Option Text
  pub run_destroy : Text → devices.Kernel → devices.Kernel × Option Text
  pub destroy_rootfs : Text → devices.Kernel → devices.Kernel × Option Text
  pub filter_teardown : Text → devices.Kernel → devices.Kernel

abbrev providers : List Text
providers =
    codes "docker-local-aufs"
    ∷ codes "docker-local-vfs"
    ∷ codes "docker-remote-aufs"
    ∷ codes "docker-remote-vfs"
    ∷ codes "docker-composite"
    ∷ codes "invalid-rootfs-provider"
    ∷ []

is_listed : Text → List Text → Bool
is_listed p [] = false
is_listed p (q ∷ qs) = text_beq q p || is_listed p qs

unfoldable pub should_clean_rootfs : Text → Bool
unfolding is_listed
should_clean_rootfs p = is_listed p providers

or_invalid : Option Text → Text
or_invalid none = codes "invalid-rootfs-provider"
or_invalid (some p) = p

module _ (s : System) where
  open s use {
    devices, read_bridge_name, read_rootfs_provider, container_teardown, run_destroy,
    destroy_rootfs, filter_teardown,
  }
  open devices use {Kernel}

  -- The error of `TearDown` is dropped.
  unfoldable pub clean_rootfs : Text → Text → Kernel → Kernel × Outcome PoolError (Unit {0})
  unfolding should_clean_rootfs
  clean_rootfs id provider k =
      if should_clean_rootfs provider
      then (let (k', failed) = destroy_rootfs id k in
          elim failed [ some e ↦ (k', err system_failed) | none ↦ (filter_teardown id k', ok tt) ])
      else (filter_teardown id k, ok tt)

  -- What follows the release of the bridge.
  unfoldable pub release_files : Text → Kernel → Kernel × Outcome PoolError (Unit {0})
  unfolding clean_rootfs or_invalid
  release_files id k =
      let provider = or_invalid (read_rootfs_provider id k) in
      let (k₁, not_torn_down) = container_teardown id k in
      elim not_torn_down [
        | some e ↦ (k₁, err system_failed)
        | none ↦
            let (k₂, failed) = run_destroy id k₁ in
            elim failed [ some e ↦ (k₂, err system_failed) | none ↦ clean_rootfs id provider k₂ ]
      ]

  unfoldable pub release_system_resources :
      Text → Manager → Kernel → Manager × Kernel × Outcome PoolError (Unit {0})
  unfolding release_files
  release_system_resources id m k = elim (read_bridge_name id k) [
    | none ↦ let (k₁, done) = release_files id k in (m, k₁, done)
    | some name ↦
        let (m', k', released) = Bridges.release devices name id m k in
        elim released [
          | err e ↦ (m', k', err (bridge_failed e))
          | panic ↦ (m', k', panic)
          | ok _ ↦ let (k₁, done) = release_files id k' in (m', k₁, done)
        ]
  ]

  unfoldable pub release :
      Text → Resources → Pools → Kernel → Pools × Kernel × Outcome PoolError (Unit {0})
  unfolding release_system_resources
  release id r p k =
      let (m, k', released) = release_system_resources id p.bridges k in
      let q = record p { bridges = m } in
      elim released [
        | ok _ ↦ (release_pool_resources r q, k', ok tt)
        | err e ↦ (q, k', err e)
        | panic ↦ (q, k', panic)
      ]
