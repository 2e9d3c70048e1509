-- ===== src/Backend/Restoring.antt =====
-- linux_backend/linux_backend.go: Start and Stop, and what they restore and save.
use garden_linux.Common.{
  true, false, List, [], ◌∷◌, map, Option, none, some, Outcome, ok, err, panic, Text, text_beq,
  text_eq, nat_eq,
}
use garden_linux.Repository.{add, all}
use garden_linux.Backend.{
  Services, Settings, Repo, Result, BackendError, failed, failed_to_snapshot, file_in, checked,
}

module _ (s : Services) where
  -- The error of the container's own `Restore` is dropped.
  unfoldable pub restore : Option Text → Repo s → s.World → Result s s.Container
  restore content repo w =
      let (w₁, restored) = s.restore content w in
      elim restored [
        | err e ↦ (repo, w₁, err (failed e))
        | panic ↦ (repo, w₁, panic)
        | ok spec ↦
            let (w₂, c) = s.provide spec w₁ in
            let (w₃, _) = s.restore_container spec c w₂ in (add s.handle c repo, w₃, ok c)
      ]

  -- The loop of `restoreSnapshots`: errors are logged; a file that cannot be opened is handed on
  -- as a nil file. A panic ends the loop.
  unfoldable pub restore_entries : Text → List Text → Repo s → s.World → Result s (Unit {0})
  unfolding restore
  restore_entries path [] repo w = (repo, w, ok tt)
  restore_entries path (name ∷ names) repo w =
      let (repo', w', restored) = restore (s.open_file (file_in path name) w) repo w in
      elim restored [
        | ok _ ↦ restore_entries path names repo' w'
        | err _ ↦ restore_entries path names repo' w'
        | panic ↦ (repo', w', panic)
      ]

  -- A directory that cannot be read has no entries.
  unfoldable pub restore_snapshots : Text → Repo s → s.World → Result s (Unit {0})
  unfolding restore_entries
  restore_snapshots path repo w = elim (s.read_dir path w) [
    | ok names ↦ restore_entries path names repo w
    | err _ ↦ (repo, w, ok tt)
    | panic ↦ (repo, w, panic)
  ]

  -- `Start` after the snapshots: all but the stored containers are pruned.
  unfoldable pub prune_others : Repo s → s.World → Result s (Unit {0})
  prune_others repo w =
      let (w', not_pruned) = s.prune (map s.id (all repo)) w in (repo, w', checked not_pruned)

  -- `Start` from the directory of the snapshots on.
  unfoldable pub make_directory : Text → Repo s → s.World → Result s (Unit {0})
  unfolding prune_others
  make_directory path repo w =
      let (w', not_made) = s.mkdir_all path w in
      elim not_made [ some e ↦ (repo, w', err (failed e)) | none ↦ prune_others repo w' ]

  unfoldable pub start : Settings → Repo s → s.World → Result s (Unit {0})
  unfolding restore_snapshots make_directory prune_others
  start b repo w = elim (text_beq b.snapshots_path []) [
    | true ↦ prune_others repo w
    | false ↦ elim (s.stat b.snapshots_path w) [
      | false ↦ make_directory b.snapshots_path repo w
      | true ↦
          let (repo', w', restored) = restore_snapshots b.snapshots_path repo w in
          elim restored [
            | ok _ ↦ make_directory b.snapshots_path repo' (s.remove_all b.snapshots_path w')
            | err e ↦ (repo', w', err e)
            | panic ↦ (repo', w', panic)
          ]
    ]
  ]

  unfoldable pub save_snapshot :
      Settings → s.Container → s.World → s.World × Outcome BackendError (Unit {0})
  save_snapshot b c w = elim (text_beq b.snapshots_path []) [
    | true ↦ (w, ok tt)
    | false ↦
        let path = file_in b.snapshots_path (s.id c) in
        let (w₁, not_created) = s.create_file path w in
        elim not_created [
          | some e ↦ (w₁, err (failed_to_snapshot e))
          | none ↦
              let (w₂, not_saved) = s.snapshot path c w₁ in
              elim not_saved [
                | some e ↦ (w₂, err (failed_to_snapshot e))
                | none ↦ let (w₃, not_closed) = s.close_file path w₂ in (w₃, checked not_closed)
              ]
        ]
  ]

  -- The loop of `Stop`: the errors of `Cleanup` are dropped and those of the snapshots logged.
  unfoldable pub save_all : Settings → List s.Container → s.World → s.World
  unfolding save_snapshot
  save_all b [] w = w
  save_all b (c ∷ cs) w = save_all b cs (save_snapshot b c (s.cleanup c w).0).0

  -- `Stop`; it waits for the calls of `Destroy`, each of which is one step here.
  unfoldable pub stop : Settings → Repo s → s.World → s.World
  unfolding save_all
  stop b repo w = save_all b (all repo) w
