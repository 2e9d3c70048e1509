-- ===== src/ResourcePool/Kept.antt =====
-- Containers that are kept by Prune of resource_pool.go keep their bridges.
use garden_linux.Common.{
  ◌≡◌, inl, inr, true, false, List, [], ◌∷◌, arith, Bool-cases, Option-cases, Text, text_beq,
  text_beq_iff, text_eq, nat_eq, Outcome-cases,
}
use garden_linux.Bridges.{Manager, release}
use garden_linux.Bridges.Kept.{listed, owns, release-owns}
use garden_linux.ResourcePool.Teardown.{System, release_system_resources}
use garden_linux.ResourcePool.Pruning.{Housekeeping, is_kept, prune_entries, prune}

is_kept-listed :
    (keep : List Text) (id j : Text)
    → listed j keep ≡ true
    → is_kept keep id ≡ false
    → text_beq id j ≡ false
unfolding is_kept listed
is_kept-listed [] id j known free = absurd (cc (known))
is_kept-listed (x ∷ keep) id j known free =
    ground (arith, is_kept-listed keep id j, text_beq_iff x j, text_beq_iff x id, text_beq_iff id j)

module _ (s : System) where
  release_system_resources-owns :
      (id bridge j : Text) (m : Manager) (k : s.devices.Kernel)
      → text_beq id j ≡ false
      → owns m bridge j ≡ true
      → owns (release_system_resources s id m k).0 bridge j ≡ true
  unfolding release_system_resources
  release_system_resources-owns id bridge j m k other held =
      elim (Option-cases (s.read_bridge_name id k)) [
        | inl unnamed ↦ rw (release_system_resources, unnamed) held
        | inr (name, named) ↦
            let kept = release-owns s.devices name id bridge j m k other held in
            elim (Outcome-cases (release s.devices name id m k).2) [
              | inl (_, fine) ↦ rw (release_system_resources, named, fine) kept
              | inr (inl (e, bad)) ↦ rw (release_system_resources, named, bad) kept
              | inr (inr stuck) ↦ rw (release_system_resources, named, stuck) kept
            ]
      ]

  prune_entries-owns :
      (h : Housekeeping s) (keep ids : List Text) (bridge j : Text) (m : Manager)
      (k : s.devices.Kernel)
      → listed j keep ≡ true
      → owns m bridge j ≡ true
      → owns (prune_entries h keep ids m k).0 bridge j ≡ true
  unfolding prune_entries
  prune_entries-owns h keep [] bridge j m k known held = held
  prune_entries-owns h keep (id ∷ ids) bridge j m k known held =
      elim (Bool-cases (is_kept keep id)) [
        | inl kept ↦
            rw (prune_entries, kept) (prune_entries-owns h keep ids bridge j m k known held)
        | inr free ↦
            let out = release_system_resources s id m k in
            let still =
              release_system_resources-owns id bridge j m k (is_kept-listed keep id j known free)
                held in
            let rest = prune_entries-owns h keep ids bridge j out.0 out.1 known still in
            elim (Outcome-cases out.2) [
              | inl (_, fine) ↦ rw (prune_entries, free, fine) rest
              | inr (inl (e, bad)) ↦ rw (prune_entries, free, bad) rest
              | inr (inr stuck) ↦ rw (prune_entries, free, stuck) still
            ]
      ]

  -- A container that is to be kept and that is among the owners of a bridge is among them after
  -- `Prune` of the resource pool, whatever the files of the other containers say and whatever
  -- fails.
  pub prune-owns :
      (h : Housekeeping s) (keep : List Text) (bridge j : Text) (m : Manager) (k : s.devices.Kernel)
      → listed j keep ≡ true
      → owns m bridge j ≡ true
      → owns (prune h keep m k).0 bridge j ≡ true
  unfolding prune
  prune-owns h keep bridge j m k known held = elim (Outcome-cases (h.read_depot k)) [
    | inr (inl (e, bad)) ↦ rw (prune, bad) held
    | inr (inr stuck) ↦ rw (prune, stuck) held
    | inl (ids, entries) ↦
        let still = prune_entries-owns h keep ids bridge j m k known held in
        elim (Outcome-cases (prune_entries h keep ids m k).2) [
          | inl (_, fine) ↦ rw (prune, entries, fine) still
          | inr (inl (e, bad)) ↦ rw (prune, entries, bad) still
          | inr (inr stuck) ↦ rw (prune, entries, stuck) still
        ]
  ]
