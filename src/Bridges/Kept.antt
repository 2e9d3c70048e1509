-- ===== src/Bridges/Kept.antt =====
-- Owners that keep their bridge when another one gives it back.
use garden_linux.Common.{
  ◌≡◌, ◌≢◌, inl, inr, refl, ap, Bool, true, false, ◌||◌, List, [], ◌∷◌, arith, List-cases, Text,
  text_beq, text_beq_iff, text_eq, nat_eq,
}
use garden_linux.Common.Map
use garden_linux.Common.Map.{Map}
use garden_linux.Bridges.{Devices, Manager, owners_of, release, drop_bridge, remove}

unfoldable pub listed : Text → List Text → Bool
listed j [] = false
listed j (x ∷ xs) = text_beq x j || listed j xs

-- The container is among the owners of the bridge.
unfoldable pub owns : Manager → Text → Text → Bool
owns m bridge j = listed j (owners_of (Map.lookup bridge m.owners))

listed-remove :
    (j id : Text) (xs : List Text) → text_beq id j ≡ false → listed j (remove xs id) ≡ listed j xs
unfolding listed remove
listed-remove j id [] other = refl
listed-remove j id (x ∷ xs) other =
    ground
      (arith, listed-remove j id xs other, text_beq_iff x id, text_beq_iff x j, text_beq_iff id j)

pub release-owns :
    (d : Devices) (name id bridge j : Text) (m : Manager) (k : d.Kernel)
    → text_beq id j ≡ false
    → owns m bridge j ≡ true
    → owns (release d name id m k).0 bridge j ≡ true
unfolding owns release owners_of listed drop_bridge
release-owns d name id bridge j m k other held =
    let left = remove (owners_of (Map.lookup name m.owners)) id in
    let same = listed-remove j id (owners_of (Map.lookup name m.owners)) other in
    let written = Map.lookup-insert name bridge left m.owners in
    elim (List-cases left) [
      | inl gone ↦
          let some_left : name ≢ bridge =
            λ e. cc (gone, same, held, ap (λ b. listed j (owners_of (Map.lookup b m.owners))) e) in
          rw (release, gone)
            (ground (
              arith,
              some_left,
              held,
              text_beq_iff name bridge,
              Map.lookup-delete name bridge (Map.insert name left m.owners),
              written,
            ))
      | inr (o, os, more) ↦
          rw (release, more) (ground (arith, held, same, text_beq_iff name bridge, written, more))
    ]
