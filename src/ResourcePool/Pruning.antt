-- ===== src/ResourcePool/Pruning.antt =====
-- Setup and Prune of resource_pool.go.
use garden_linux.Common.{
  ℕ, Bool, true, false, ◌||◌, List, [], ◌∷◌, Option, none, some, Outcome, ok, err, panic, Text,
  codes, text_beq, text_eq, nat_eq,
}
use garden_linux.Bridges.{Devices, Manager}
use garden_linux.Bridges as Bridges
use garden_linux.ResourcePool.{Pools, PoolError, system_failed}
use garden_linux.ResourcePool.Teardown.{System, release_system_resources}
use garden_linux.Subnets.Pool as Subnets

pub data Target : Type 0 where
  returns rejects : Target

-- What `Setup` and `Prune` call besides.
pub record Housekeeping (s : System) : Type 1 where
  pub run_setup : Text → Text → s.devices.Kernel → s.devices.Kernel × Option Text
  pub setup_quota : s.devices.Kernel → s.devices.Kernel × Option Text
  pub append_rule : Text → Target → s.devices.Kernel → s.devices.Kernel × Option Text
  pub read_depot : s.devices.Kernel → Outcome Text (List Text)

unfoldable pub max_containers : Pools → ℕ
max_containers p = Subnets.capacity p.subnets

-- The texts that do not keep: `tmp`, and what is in `keep`.
unfoldable pub is_kept : List Text → Text → Bool
is_kept [] id = text_beq id (codes "tmp")
is_kept (j ∷ keep) id = text_beq j id || is_kept keep id

module _ {s : System} (h : Housekeeping s) where
  -- One loop of `setupIPTables`; an empty network is left out.
  unfoldable pub append_rules :
      Target → List Text → s.devices.Kernel → s.devices.Kernel × Option Text
  append_rules target [] k = (k, none)
  append_rules target (n ∷ ns) k = elim (text_beq n []) [
    | true ↦ append_rules target ns k
    | false ↦
        let (k', failed) = h.append_rule n target k in
        elim failed [ some e ↦ (k', some e) | none ↦ append_rules target ns k' ]
  ]

  unfoldable pub setup_ip_tables :
      List Text → List Text → s.devices.Kernel → s.devices.Kernel × Option Text
  unfolding append_rules
  setup_ip_tables allowed denied k =
      let (k', failed) = append_rules returns allowed k in
      elim failed [ some e ↦ (k', some e) | none ↦ append_rules rejects denied k' ]

  unfoldable pub setup :
      Text → Text → List Text → List Text → s.devices.Kernel → s.devices.Kernel × Option Text
  unfolding setup_ip_tables
  setup depot path_variable allowed denied k =
      let (k₁, failed) = h.run_setup depot path_variable k in
      elim failed [
        | some e ↦ (k₁, some e)
        | none ↦
            let (k₂, no_quota) = h.setup_quota k₁ in
            elim no_quota [ some e ↦ (k₂, some e) | none ↦ setup_ip_tables allowed denied k₂ ]
      ]

  -- The loop of `Prune`: the errors of the entries are logged; a panic ends it.
  unfoldable pub prune_entries :
      List Text
      → List Text
      → Manager
      → s.devices.Kernel
      → Manager × s.devices.Kernel × Outcome PoolError (Unit {0})
  unfolding is_kept
  prune_entries keep [] m k = (m, k, ok tt)
  prune_entries keep (id ∷ ids) m k = elim (is_kept keep id) [
    | true ↦ prune_entries keep ids m k
    | false ↦
        let (m', k', released) = release_system_resources s id m k in
        elim released [
          | ok _ ↦ prune_entries keep ids m' k'
          | err e ↦ prune_entries keep ids m' k'
          | panic ↦ (m', k', panic)
        ]
  ]

  -- The error of the bridges' `Prune` is logged.
  unfoldable pub prune :
      List Text
      → Manager
      → s.devices.Kernel
      → Manager × s.devices.Kernel × Outcome PoolError (Unit {0})
  unfolding prune_entries
  prune keep m k = elim (h.read_depot k) [
    | err e ↦ (m, k, err system_failed)
    | panic ↦ (m, k, panic)
    | ok ids ↦
        let (m', k', pruned) = prune_entries keep ids m k in
        elim pruned [
          | ok _ ↦ (m', (Bridges.prune s.devices m' k').0, ok tt)
          | err e ↦ (m', k', err e)
          | panic ↦ (m', k', panic)
        ]
  ]
