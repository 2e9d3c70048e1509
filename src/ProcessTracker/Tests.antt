-- ===== src/ProcessTracker/Tests.antt =====
-- Runs of the tracker, and its theorems there.
use garden_linux.Common.{
  ℕ, ◌≡◌, refl, true, List, [], ◌∷◌, map, none, some, err, codes, text_eq, nat_eq,
}
use garden_linux.Common.Map
use garden_linux.Common.Map.{Map}
use garden_linux.ProcessTracker.{
  Tracker, Step, runs, attaches, ends, restores, take_steps, take_step, run, attach, restore,
  end_link, register, start_link, active_processes, is_among, without_one, failed_process,
}
use garden_linux.ProcessTracker.Linked.{run_fails-active_processes, take_steps-end}

abbrev empty : Tracker ℕ
empty = record { processes = []; links = [] }

abbrev others : List (Step ℕ)
others =
    runs (codes "2") 0 none none
    ∷ restores (codes "3") 0
    ∷ attaches (codes "2")
    ∷ ends (codes "2")
    ∷ ends (codes "1")
    ∷ []

others_run : active_processes (take_steps others empty) ≡ codes "3" ∷ []
unfolding take_steps take_step run attach restore end_link register start_link active_processes
    is_among without_one Map.insert Map.delete Map.lookup
others_run = refl

run_fails-active_processes_example :
    let (t', r) = run (codes "1") 0 (some (codes "no wshd")) none empty in
    (r ≡ err (failed_process (codes "no wshd")))
    × (is_among (codes "1") (active_processes (take_steps others t')) ≡ true)
unfolding is_among
run_fails-active_processes_example =
    run_fails-active_processes (codes "1") (codes "no wshd") 0 none empty others refl
      (refl, (refl, (refl, (tt, (tt, tt)))))

take_steps-end_example :
    let t = take_steps others empty in active_processes (take_steps (map ends t.links) t) ≡ []
take_steps-end_example = take_steps-end others (refl, (tt, (tt, (tt, (tt, tt)))))
