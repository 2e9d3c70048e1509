-- ===== src/Backend/Destroyed.antt =====
-- Destroy and the resources that it gives back.
use garden_linux.Common.{
  ◌+◌, ◌≡◌, ◌⊎◌, inl, inr, refl, ap, ◌∙◌, List, [], ◌∷◌, none, some, length, ok, err, arith,
  Option-cases, Text, text_beq_iff, text_eq, nat_eq,
}
use garden_linux.Common.Map
use garden_linux.Common.Map.{Map}
use garden_linux.Repository.{delete, find_by_handle}
use garden_linux.Repository.Latest.{IsIndexed, deletes, run, run-IsIndexed}
use garden_linux.Backend.{Services, Repo, destroy, failed, not_found}
use garden_linux.Backend.Traced.{
  Event, released, acquisitions, releases, traced, IsBalanced, length-delete_found,
}

module _ (s : Services) where
  abbrev World : Type 0
  World = s.World × List (Event s.LinuxSpec)

  destroy-absent :
      (handle : Text) (repo : Repo (traced s)) (w : World)
      → find_by_handle handle repo ≡ none
      → destroy (traced s) handle repo w ≡ (repo, w, err (not_found handle))
  unfolding destroy
  destroy-absent handle repo w absent = rw (destroy, absent) refl

  -- `Release` is called if `Cleanup` has no error, with what the container says that it has.
  destroy-log :
      (handle : Text) (c : s.Container) (repo : Repo (traced s)) (w : World)
      → find_by_handle handle repo ≡ some c
      → let (repo', w', r) = destroy (traced s) handle repo w in
        let (v, not_clean) = s.cleanup c w.0 in
        (repo' ≡ delete s.handle c repo)
        × (((e : Text) × (not_clean ≡ some e) × (r ≡ err (failed e)) × (w'.1 ≡ w.1))
            ⊎ ((not_clean ≡ none)
                × (w'.1 ≡ released (s.resource_spec c v) ∷ w.1)
                × ((s.release (s.resource_spec c v) v).1 ≡ none → r ≡ ok tt)))
  unfolding destroy
  destroy-log handle c repo w found = elim (Option-cases (s.cleanup c w.0).1) [
    | inr (e, bad) ↦ rw (destroy, found, bad) (refl, inl (e, refl, refl, refl))
    | inl clean ↦
        rw (destroy, found, clean) (refl, inr (refl, refl, λ fine. rw (destroy, fine) refl))
  ]

  gone :
      (handle : Text) (c : s.Container) (repo : Repo (traced s))
      → IsIndexed s.handle repo
      → find_by_handle handle repo ≡ some c
      → find_by_handle handle (delete s.handle c repo) ≡ none
  unfolding find_by_handle delete IsIndexed
  gone handle c repo v found = ground (
    arith,
    Map.lookup-delete (s.handle c) handle repo,
    v.1 handle c found,
    text_beq_iff handle handle,
  )

  length_left :
      (handle : Text) (c : s.Container) (repo : Repo (traced s))
      → IsIndexed s.handle repo
      → find_by_handle handle repo ≡ some c
      → length repo ≡ length (delete s.handle c repo) + 1
  unfolding find_by_handle delete IsIndexed
  length_left handle c repo v found =
      let own = v.1 handle c found in length-delete_found (s.handle c) c repo v.0 (rw own found)

  -- After `Destroy` of a stored container another one of its handle only answers that it is
  -- unknown. If `Cleanup` has no error, `Release` was called once, with what the container says
  -- that it has, and there are again as many acquisitions without a `Release` as stored
  -- containers. If `Cleanup` fails, `Destroy` fails and `Release` was not called: there is one
  -- such acquisition more than there are stored containers.
  pub destroy-IsBalanced :
      (handle : Text) (c : s.Container) (repo : Repo (traced s)) (w later : World)
      → IsBalanced s repo w
      → find_by_handle handle repo ≡ some c
      → let (repo', w', r) = destroy (traced s) handle repo w in
        (destroy (traced s) handle repo' later ≡ (repo', later, err (not_found handle)))
        × (((s.cleanup c w.0).1 ≡ none
              → IsBalanced s repo' w'
                × (w'.1 ≡ released (s.resource_spec c (s.cleanup c w.0).0) ∷ w.1))
            × ((e : Text)
                → (s.cleanup c w.0).1 ≡ some e
                → (r ≡ err (failed e))
                  × (w'.1 ≡ w.1)
                  × (acquisitions w'.1 ≡ releases w'.1 + length repo' + 1)))
  unfolding IsBalanced delete run
  destroy-IsBalanced handle c repo w later v found =
      let (left, ways) = destroy-log handle c repo w found in
      let lost = length_left handle c repo v.0 found in
      (
        rw left
            (destroy-absent handle (delete s.handle c repo) later (gone handle c repo v.0 found)),
        elim ways [
          | inl (e, bad, failing, same) ↦ (
            λ clean. absurd (cc (bad, clean)),
            λ x bad'. rw left (
              failing ∙ ap (λ y. err (failed y)) cc,
              same,
              ground (arith, lost, v.1, ap acquisitions same, ap releases same),
            ),
          )
          | inr (clean, one_more, _) ↦ (
            λ _. rw left (
              (
                run-IsIndexed s.handle (deletes c ∷ []) repo v.0,
                ground (arith, lost, v.1, ap acquisitions one_more, ap releases one_more),
              ),
              one_more,
            ),
            λ x bad. absurd (cc (bad, clean)),
          )
        ],
      )
