-- ===== src/Bridges/Prune.antt =====
-- What `Prune` leaves of the devices.
use garden_linux.Common.{
  ◌≡◌, ◌≢◌, ◌⊎◌, inl, inr, refl, ◌∙◌, Bool, true, false, not, ◌&&◌, ◌||◌, List, [], ◌∷◌, none, ok,
  arith, Bool-cases, Text, text_beq, text_beq_iff, text_eq, nat_eq, Outcome-cases,
}
use garden_linux.Bridges.{Devices, Manager, prune, prune_each, has_prefix, is_reserved}

unfoldable pub is_listed : Text → List Text → Bool
is_listed b [] = false
is_listed b (c ∷ cs) = text_beq c b || is_listed b cs

-- What the code relies on: a destroyed device is gone, and the other devices are left alone; the
-- list holds the devices that are present.
pub record Presence (d : Devices) : Type 0 where
  pub present : Text → d.Kernel → Bool
  pub destroy_other :
      (b c : Text) (k : d.Kernel) → b ≢ c → present c (d.destroy b k).0 ≡ present c k
  pub destroy_self :
      (b : Text) (k : d.Kernel) → (d.destroy b k).1 ≡ none → present b (d.destroy b k).0 ≡ false
  pub listed :
      (b : Text) (k : d.Kernel) (bs : List Text)
      → d.list k ≡ ok bs
      → present b k ≡ true
      → is_listed b bs ≡ true

abbrev pub is_stale : Text → Manager → Bool
is_stale b m = has_prefix b m.prefix && not (is_reserved b m)

module _ (d : Devices) (w : Presence d) (m : Manager) where
  prune_each-kept :
      (bs : List Text) (k : d.Kernel) (c : Text)
      → is_stale c m ≡ false
      → w.present c (prune_each d bs m k) ≡ w.present c k
  unfolding prune_each
  prune_each-kept [] k c h = refl
  prune_each-kept (b ∷ bs) k c h = elim (Bool-cases (is_stale b m)) [
    | inl stale ↦
        rw stale
          (prune_each-kept bs (d.destroy b k).0 c h ∙ w.destroy_other b c k (λ e. ground arith))
    | inr fresh ↦ rw fresh (prune_each-kept bs k c h)
  ]

  prune_each-absent :
      (bs : List Text) (k : d.Kernel) (c : Text)
      → ((n : Text) (k' : d.Kernel) → (d.destroy n k').1 ≡ none)
      → w.present c k ≡ false
      → w.present c (prune_each d bs m k) ≡ false
  unfolding prune_each
  prune_each-absent [] k c fine h = h
  prune_each-absent (b ∷ bs) k c fine h = elim (Bool-cases (is_stale b m)) [
    | inl stale ↦ rw stale (
        prune_each-absent bs (d.destroy b k).0 c fine
          (ground (arith, text_beq_iff b c, w.destroy_other b c k, w.destroy_self c k, fine c k)))
    | inr fresh ↦ rw fresh (prune_each-absent bs k c fine h)
  ]

  prune_each-gone :
      (bs : List Text) (k : d.Kernel) (c : Text)
      → ((n : Text) (k' : d.Kernel) → (d.destroy n k').1 ≡ none)
      → is_stale c m ≡ true
      → is_listed c bs ≡ true
      → w.present c (prune_each d bs m k) ≡ false
  unfolding prune_each is_listed
  prune_each-gone [] k c fine h i = absurd (cc)
  prune_each-gone (b ∷ bs) k c fine h i = elim (Bool-cases (text_beq b c)) [
    | inl same ↦
        let e : b ≡ c = (text_beq_iff b c).0 same in
        rw (e, h) (prune_each-absent bs (d.destroy c k).0 c fine (w.destroy_self c k (fine c k)))
    | inr other ↦ prune_each-gone bs _ c fine h (ground arith)
  ]

-- `Prune` leaves every device alone that is reserved or lacks the prefix; and if the list can be
-- read and no `Destroy` fails, no other device with the prefix is present afterwards; for devices
-- of which `Destroy` removes the named one alone and the list names all.
pub prune_lem :
    (d : Devices) (w : Presence d) (m : Manager) (k : d.Kernel)
    → ((c : Text)
        → (is_reserved c m ≡ true) ⊎ (has_prefix c m.prefix ≡ false)
        → w.present c (prune d m k).0 ≡ w.present c k)
      × ((bs : List Text)
          → d.list k ≡ ok bs
          → ((n : Text) (k' : d.Kernel) → (d.destroy n k').1 ≡ none)
          → (c : Text) → is_reserved c m ≡ false
          → has_prefix c m.prefix ≡ true
          → w.present c (prune d m k).0 ≡ false)
unfolding prune
prune_lem d w m k = (
  λ c h. elim (Outcome-cases (d.list k)) [
    | inl (bs, e) ↦ rw (e, prune) (prune_each-kept d w m bs k c (ground arith))
    | inr (inl (x, e)) ↦ rw (e, prune)
    | inr (inr e) ↦ rw (e, prune)
  ],
  λ bs e fine c free prefixed.
      rw (e, prune)
        (elim (Bool-cases (w.present c k)) [
          | inl there ↦ prune_each-gone d w m bs k c fine (ground arith) (w.listed c k bs e there)
          | inr absent ↦ prune_each-absent d w m bs k c fine absent
        ]),
)
