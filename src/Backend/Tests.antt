-- ===== src/Backend/Tests.antt =====
-- A backend over a small world, and its theorems there.
use garden_linux.Common.{
  ℕ, ◌+◌, ◌≤◌, ◌≡◌, ◌≢◌, refl, sym, ap, true, false, List, [], ◌∷◌, none, some, ◌==◌, if◌then◌else◌,
  length, Outcome, ok, err, arith, Text, codes, text_beq, text_beq_iff, text_eq, nat_eq,
}
use mathlib.Core.Option
use garden_linux.Common.Map
use garden_linux.Common.Map.{Map}
use garden_linux.Repository.{find_by_handle, all, query}
use garden_linux.Repository.Latest.{IsIndexed, adds, run}
use garden_linux.Backend.{
  Services, Settings, ContainerSpec, Repo, create, destroy, admit, create_admitted, start_provided,
  apply_limits, handle_exists, failed, not_found,
}
use garden_linux.Backend.Traced.{
  Event, acquired, released, acquisitions, releases, traced, IsBalanced,
}
use garden_linux.Backend.Created.{create-IsBalanced, Undone}
use garden_linux.Backend.Destroyed.{destroy-IsBalanced}
use garden_linux.Backend.Overtaken.{
  take_turns, take_turn, advance, overlapped, overlapped-overtaken,
}
use garden_linux.Backend.Size.{Served, creates, destroys, serve, length-serve}
use garden_linux.Backend.Bulk.{bulk_info, bulk_metrics, among, bulk-find_by_handle}

pub without : Text → List Text → List Text
without j [] = []
without j (i ∷ is) = if text_beq i j then without j is else i ∷ without j is

pub take_id : Text × Text → List Text → List Text × Outcome Text (Text × Text)
take_id r w = if among r.0 w then (w, err (codes "in use")) else (r.0 ∷ w, ok r)

-- The world is the list of the ids that are held; a request names the id and the handle, and a
-- container is both. The one of the id `stuck` cannot be cleaned up.
abbrev pub small : Services
small = record {
  World = List Text;
  Container = Text × Text;
  LinuxSpec = Text × Text;
  Request = Text × Text;
  Disk = ℕ;
  Bandwidth = ℕ;
  Info = Text;
  Metrics = ℕ;
  id = λ c. c.0;
  handle = λ c. c.1;
  has_properties = λ m c w. true;
  resource_spec = λ c w. c;
  start_container = λ c w. (w, none);
  cleanup = λ c w. (w, if text_beq c.0 (codes "stuck") then some (codes "busy") else none);
  restore_container = λ l c w. (w, none);
  snapshot = λ path c w. (w, none);
  info = λ c w. ok c.0;
  metrics = λ c w. ok 7;
  limit_cpu = λ n c w. (w, none);
  limit_disk = λ n c w. (w, none);
  limit_bandwidth = λ n c w. (w, none);
  limit_memory = λ n c w. (w, none);
  is_zero_disk = λ n. n == 0;
  is_zero_bandwidth = λ n. n == 0;
  setup = λ w. (w, none);
  acquire = take_id;
  release = λ l w. (without l.0 w, none);
  restore = λ content w. (w, err (codes "no snapshot"));
  prune = λ ids w. (w, none);
  pool_max_containers = 64;
  provide = λ l w. (w, l);
  health_check = λ w. none;
  total_memory = λ w. ok 1024;
  total_disk = λ w. ok 4096;
  stat = λ path w. false;
  read_dir = λ path w. ok [];
  open_file = λ path w. none;
  create_file = λ path w. (w, none);
  close_file = λ path w. (w, none);
  remove_all = λ path w. w;
  mkdir_all = λ path w. (w, none);
}

abbrev pub settings : Settings
settings = record { snapshots_path = []; max_containers = 2 }

abbrev one_held : List Text
one_held = codes "a" ∷ []

abbrev asks : Text → Text → ContainerSpec small
asks id handle = record {
  handle = handle;
  limits = record { cpu = 5; disk = 0; bandwidth = 0; memory = 0 };
  request = (id, handle);
}

abbrev pub web : Text × Text
web = (codes "a", codes "web")

abbrev stuck : Text × Text
stuck = (codes "stuck", codes "db")

abbrev one_stored : Repo small
one_stored = (codes "web", web) ∷ []

abbrev two_stored : Repo small
two_stored = (codes "web", web) ∷ (codes "db", stuck) ∷ []

create_twice :
    (create small settings (asks (codes "b") (codes "web")) one_stored one_held).2
    ≡ err (handle_exists (codes "web"))
unfolding create find_by_handle Map.lookup
create_twice = refl

abbrev Traced : Type 0
Traced = List Text × List (Event (Text × Text))

abbrev one_traced : Traced
one_traced = (one_held, acquired web ∷ [])

abbrev two_traced : Traced
two_traced = (codes "a" ∷ codes "stuck" ∷ [], acquired stuck ∷ acquired web ∷ [])

empty-IsBalanced : IsBalanced small [] ([], [])
unfolding IsBalanced IsIndexed Map.lookup
empty-IsBalanced = ((tt, λ h c e. ground arith), refl)

one_stored-IsBalanced : IsBalanced small one_stored one_traced
unfolding IsBalanced IsIndexed Map.has_key Map.lookup
one_stored-IsBalanced = (((refl, tt), λ h c e. ground (arith, text_beq_iff (codes "web") h)), refl)

two_stored-IsBalanced : IsBalanced small two_stored two_traced
unfolding IsBalanced IsIndexed Map.has_key Map.lookup
two_stored-IsBalanced = (
  (
    (refl, (refl, tt)),
    λ h c e. ground (arith, text_beq_iff (codes "web") h, text_beq_iff (codes "db") h),
  ),
  refl,
)

new_handle :
    (l : Text × Text) (v : List Text)
    → (take_id (codes "b", codes "db") one_held).1 ≡ ok l
    → Map.lookup l.1 one_stored ≡ none
unfolding take_id among Map.lookup
new_handle l v e =
    let own : ◌≡◌ {A = Text × Text} (codes "b", codes "db") l = cc (e) in
    rw (sym (ap (λ (x : Text × Text). x.1) own)) refl

abbrev asks_traced : Text → Text → ContainerSpec (traced small)
asks_traced id handle = record {
  handle = handle;
  limits = record { cpu = 5; disk = 0; bandwidth = 0; memory = 0 };
  request = (id, handle);
}

create-IsBalanced_example :
    let (repo', w', r) =
      create (traced small) settings (asks_traced (codes "b") (codes "db")) one_stored one_traced in
    IsBalanced small repo' w'
    × (((c : Text × Text) → r ≢ ok c) → (repo' ≡ one_stored) × Undone small one_traced w')
create-IsBalanced_example =
    create-IsBalanced small settings (asks_traced (codes "b") (codes "db")) one_stored one_traced
      one_stored-IsBalanced new_handle

destroy-IsBalanced_example :
    let (repo', w', r) = destroy (traced small) (codes "db") two_stored two_traced in
    (destroy (traced small) (codes "db") repo' ([], [])
      ≡ (repo', ([], []), err (not_found (codes "db"))))
    × (((small.cleanup stuck two_traced.0).1 ≡ none
          → IsBalanced small repo' w' × (w'.1 ≡ released stuck ∷ two_traced.1))
        × ((e : Text)
            → (small.cleanup stuck two_traced.0).1 ≡ some e
            → (r ≡ err (failed e))
              × (w'.1 ≡ two_traced.1)
              × (acquisitions w'.1 ≡ releases w'.1 + length repo' + 1)))
unfolding find_by_handle Map.lookup
destroy-IsBalanced_example =
    destroy-IsBalanced small (codes "db") stuck two_stored two_traced ([], []) two_stored-IsBalanced
      refl

overlapped-overtaken_example :
    let t =
      overlapped
        (traced small)
        settings
        (asks_traced (codes "a") (codes "web"))
        (asks_traced (codes "b") (codes "web"))
        []
        ([], []) in
    (find_by_handle (codes "web") t.repo ≡ some (codes "b", codes "web"))
    × (length t.repo ≡ 1)
    × (acquisitions t.world.1 ≡ releases t.world.1 + length t.repo + 1)
unfolding overlapped take_turns take_turn advance admit find_by_handle create_admitted take_id among
    start_provided apply_limits Map.lookup all
overlapped-overtaken_example =
    overlapped-overtaken small settings (asks_traced (codes "a") (codes "web"))
      (asks_traced (codes "b") (codes "web")) [] ([], []) web (codes "b", codes "web")
      empty-IsBalanced refl refl refl refl refl refl

abbrev served : List (Served small)
served =
    creates (asks (codes "b") (codes "db"))
    ∷ creates (asks (codes "c") (codes "cache"))
    ∷ destroys (codes "web")
    ∷ []

length-serve_example : length (all (serve small settings served one_stored one_held).0) ≤ 2
unfolding all query
length-serve_example =
    length-serve small settings served one_stored one_held (omega arith) (omega arith)

bulk-find_by_handle_example :
    let repo = run small.handle (adds web ∷ adds stuck ∷ []) [] in
    let handles = codes "web" ∷ codes "cache" ∷ [] in
    (Map.lookup (codes "web") (bulk_info small handles repo []) ≡ (
      if among (codes "web") handles
      then Option.map (λ c. small.info c []) (find_by_handle (codes "web") repo)
      else none))
    × (Map.lookup (codes "web") (bulk_metrics small handles repo []) ≡ (
        if among (codes "web") handles
        then Option.map (λ c. small.metrics c []) (find_by_handle (codes "web") repo)
        else none))
bulk-find_by_handle_example =
    bulk-find_by_handle small (adds web ∷ adds stuck ∷ []) (codes "web" ∷ codes "cache" ∷ [])
      (codes "web") []
