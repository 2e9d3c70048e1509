-- ===== src/Yarn/Tests.antt =====
-- A small backend that keeps its handles, and runs of YarnBackend.go over it.
mod Composed
use garden_linux.Common.{
  ℕ, ◌≤◌, ◌<◌, ◌≡◌, refl, sym, ap, ◌∙◌, false, ◌||◌, List, [], ◌∷◌, none, some, ltb, ok, err, panic,
  Text, codes, text_beq, text_eq, nat_eq,
}
use garden_linux.Common.Map.{Map, insert, has_key, lookup, has_key-insert}
use garden_linux.Bridges.{has_prefix}
use garden_linux.Yarn.Nide.{
  LimitTypes, YarnContainer, clean, Cmd, get_state, kill, info, nm_handler, blank, kill, info,
}
use garden_linux.Yarn.Server.{
  current, RealBackend, YarnBackend, remove_handle, bulk_info, destroy, lookup_container, nide,
  update, current,
}
use garden_linux.Yarn.Handles.{occurs, text_beq-sym, ltb-one_if}
use garden_linux.Yarn.Bulk.{ok-injective, bulk_info-handles}
use garden_linux.Yarn.Transparent.{
  Call, creates, destroys, informs, serve_all, serve_all_real, with_real, serve_all-foreign,
}
use garden_linux.Yarn.Process.{NideCall, kills, runs, waits, after_all, after_all-blank, KilledLate}

abbrev answer : List Text → Map Text Text
answer [] = []
answer (h ∷ hs) = insert h (codes "real") (answer hs)

abbrev measure : List Text → Map Text ℕ
measure [] = []
measure (h ∷ hs) = insert h 7 (measure hs)

abbrev toy : RealBackend
toy = record {
  State = List Text;
  Error = Text;
  Container = Text;
  Spec = Text;
  Capacity = ℕ;
  InfoEntry = Text;
  MetricsEntry = ℕ;
  rootfs_path = λ s. s;
  info_entry = λ i. i.state;
  metrics_entry = λ m. m.rss;
  start = λ s. (s, none);
  stop = λ s. s;
  grace_time = λ c s. 5;
  ping = λ s. none;
  capacity = λ s. ok 9;
  create = λ spec s. (spec ∷ s, ok spec);
  destroy = λ h s. (s, some (codes "unknown handle"));
  containers = λ p s. ok s;
  bulk_info = λ hs s. ok (answer hs);
  bulk_metrics = λ hs s. ok (measure hs);
  lookup = λ h s. ok h;
}

abbrev no_limits : LimitTypes
no_limits = record {
  Bandwidth = ℕ;
  Cpu = ℕ;
  Disk = ℕ;
  Memory = ℕ;
  no_bandwidth = 0;
  no_cpu = 0;
  no_disk = 0;
  no_memory = 0;
}

abbrev one_nide : YarnBackend toy no_limits
one_nide = record { real_backend = codes "a" ∷ []; store = blank ∷ []; yarn_container = some 0 }

abbrev three : List Text
three = codes "a" ∷ nm_handler ∷ codes "b" ∷ []

three_left : (remove_handle three).handles ≡ codes "a" ∷ codes "b" ∷ []
unfolding remove_handle
three_left = refl

callers_see : (remove_handle three).callers ≡ codes "a" ∷ codes "b" ∷ [] ∷ []
unfolding remove_handle
callers_see = refl

abbrev foreign_calls : List (Call toy)
foreign_calls = creates (codes "docker:x") ∷ informs (codes "a" ∷ []) ∷ destroys (codes "a") ∷ []

serve_all-foreign_example : serve_all foreign_calls one_nide ≡ (
    let (s, replies) = serve_all_real foreign_calls one_nide.real_backend in
    (with_real one_nide s, replies))
unfolding has_prefix
serve_all-foreign_example =
    serve_all-foreign foreign_calls one_nide (refl, (refl, (refl, record {})))

abbrev nide_calls : List (NideCall no_limits)
nide_calls = runs none ∷ kills ∷ runs none ∷ waits clean ∷ kills ∷ []

after_all-blank_example :
    let (c, starts) = after_all nide_calls (blank {l = no_limits}) in
    (starts ≤ 1)
    × KilledLate c.cmd
    × ((x : Cmd)
        → c.cmd ≡ some x
        → x.process_state ≡ none
        → (get_state c ≡ codes "stopped") × (kill c ≡ c) × (x.killed ≡ false))
after_all-blank_example = after_all-blank {l = no_limits} nide_calls
