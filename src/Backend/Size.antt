-- ===== src/Backend/Size.antt =====
-- How many containers the backend has.
use garden_linux.Common.{
  suc, ◌+◌, ◌≤◌, ◌<◌, ◌≡◌, ◌⊎◌, inl, inr, refl, ap, List, [], ◌∷◌, length, ok, arith, Option-cases,
  Text, text_eq, nat_eq, Outcome-cases,
}
use garden_linux.Common.Map
use garden_linux.Common.Map.{Map}
use garden_linux.Repository.{add, delete, find_by_handle, query, all}
use garden_linux.Backend.{
  Services, Settings, ContainerSpec, Repo, create, destroy, admit, create_admitted, start_provided,
}

length-all : {C : Type 0} (store : Map Text C) → length (all store) ≡ length store
unfolding all query
length-all [] = refl
length-all (x ∷ store) = ap suc (length-all store)

length-insert :
    {C : Type 0} (h : Text) (c : C) (store : Map Text C)
    → length (Map.insert h c store) ≤ length store + 1
unfolding Map.insert
length-insert h c [] = omega arith
length-insert h c ((j, x) ∷ store) = ground (arith, length-insert h c store)

length-delete :
    {C : Type 0} (h : Text) (store : Map Text C) → length (Map.delete h store) ≤ length store
unfolding Map.delete
length-delete h [] = omega arith
length-delete h ((j, x) ∷ store) = ground (arith, length-delete h store)

module _ (s : Services) where
  -- Only a call that succeeds stores a container.
  start_provided-repo :
      (spec : ContainerSpec s) (linux : s.LinuxSpec) (c : s.Container) (repo : Repo s) (w : s.World)
      → ((start_provided s spec linux c repo w).0 ≡ repo)
        ⊎ ((start_provided s spec linux c repo w).0 ≡ add s.handle c repo)
  unfolding start_provided
  start_provided-repo spec linux c repo w = ground arith

  create_admitted-repo :
      (spec : ContainerSpec s) (repo : Repo s) (w : s.World)
      → ((create_admitted s spec repo w).0 ≡ repo)
        ⊎ ((c : s.Container) × ((create_admitted s spec repo w).0 ≡ add s.handle c repo))
  unfolding create_admitted
  create_admitted-repo spec repo w = elim (Outcome-cases (s.acquire spec.request w).1) [
    | inr (inl (e, bad)) ↦ inl (rw (create_admitted, bad) refl)
    | inr (inr stuck) ↦ inl (rw (create_admitted, stuck) refl)
    | inl (linux, fine) ↦
        let (w₂, c) = s.provide linux (s.acquire spec.request w).0 in
        elim (start_provided-repo spec linux c repo w₂) [
          | inl same ↦ inl (rw (create_admitted, fine) same)
          | inr added ↦ inr (c, rw (create_admitted, fine) added)
        ]
  ]

  admit-length :
      (b : Settings) (spec : ContainerSpec s) (repo : Repo s)
      → 0 < b.max_containers
      → admit s b spec repo ≡ ok tt
      → length repo < b.max_containers
  unfolding admit
  admit-length b spec repo limited fine = ground (arith, length-all repo)

  create-length :
      (b : Settings) (spec : ContainerSpec s) (repo : Repo s) (w : s.World)
      → 0 < b.max_containers
      → length repo ≤ b.max_containers
      → length (create s b spec repo w).0 ≤ b.max_containers
  unfolding create add
  create-length b spec repo w limited room = elim (Outcome-cases (admit s b spec repo)) [
    | inr (inl (e, bad)) ↦ rw (create, bad) room
    | inr (inr stuck) ↦ rw (create, stuck) room
    | inl (_, fine) ↦ elim (create_admitted-repo spec repo w) [
      | inl same ↦ rw (create, fine, same) room
      | inr (c, added) ↦
          rw (create, fine, added)
            (omega
              (arith, length-insert (s.handle c) c repo, admit-length b spec repo limited fine))
    ]
  ]

  destroy-length :
      (handle : Text) (repo : Repo s) (w : s.World)
      → length (destroy s handle repo w).0 ≤ length repo
  unfolding destroy delete
  destroy-length handle repo w = elim (Option-cases (find_by_handle handle repo)) [
    | inl absent ↦ rw (destroy, absent) (omega arith)
    | inr (c, found) ↦ ground (arith, found, length-delete (s.handle c) repo)
  ]

-- The calls of clients, one after the other.
pub data Served (s : Services) : Type 0 where
  creates : ContainerSpec s → Served s
  destroys : Text → Served s

module _ (s : Services) where
  unfoldable pub serve : Settings → List (Served s) → Repo s → s.World → Repo s × s.World
  serve b [] repo w = (repo, w)
  serve b (creates spec ∷ calls) repo w =
      let (repo', w', _) = create s b spec repo w in serve b calls repo' w'
  serve b (destroys handle ∷ calls) repo w =
      let (repo', w', _) = destroy s handle repo w in serve b calls repo' w'

  -- With a limit above 0, calls of `Create` and `Destroy` that do not overlap never leave more
  -- containers than the limit, if there were not more at the start.
  pub length-serve :
      (b : Settings) (calls : List (Served s)) (repo : Repo s) (w : s.World)
      → 0 < b.max_containers
      → length (all repo) ≤ b.max_containers
      → length (all (serve b calls repo w).0) ≤ b.max_containers
  unfolding serve
  length-serve b [] repo w limited room = room
  length-serve b (creates spec ∷ calls) repo w limited room =
      let (repo', w', _) = create s b spec repo w in
      length-serve b calls repo' w' limited
        (omega (arith, length-all repo, length-all repo', create-length s b spec repo w limited))
  length-serve b (destroys handle ∷ calls) repo w limited room =
      let (repo', w', _) = destroy s handle repo w in
      length-serve b calls repo' w' limited
        (omega (arith, length-all repo, length-all repo', destroy-length s handle repo w))
