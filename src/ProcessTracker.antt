-- ===== src/ProcessTracker.antt =====
-- process_tracker/process_tracker.go: the processes of a container, by id. `Run` is taken as one
-- step, although it registers the process, waits for it and starts its link one after the other,
-- and other calls may come between; so is each other method, and the end of a link. A goroutine
-- that waits for the end of a process is a link.
pub mod Linked
mod Tests
use garden_linux.Common.{
  ℕ, zero, suc, ◌+◌, ◌-◌, ◌*◌, ◌/◌, ◌%◌, ◌^◌, ◌≤◌, ◌<◌, ◌≡◌, ◌≢◌, ◌↔◌, ◌⊎◌, inl, inr, refl, sym, ap,
  ◌∙◌, Bool, true, false, not, ◌&&◌, ◌||◌, List, [], ◌∷◌, ◌++◌, map, append-nil, append_assoc,
  Option, none, some, ◌==◌, ==_iff, if◌then◌else◌, leb, ltb, length, length-append, take, drop, set,
  count, count-append, All, Outcome, ok, err, panic, ◌>>=◌, >>=-eq-ok, arith, Bool-cases,
  Option-cases, List-cases, lt-or-ge, eq-or-ne, Text, codes, text_beq, text_beq_iff, text_eq,
  nat_eq, Eq, snoc-ne-nil, Outcome-cases, range, replicate,
}
use garden_linux.Common.Map
use garden_linux.Common.Map.{Map}

-- The map of processes, each with its signaller, and the ids whose links have not ended.
pub record Tracker (Signaller : Type 0) : Type 0 where
  pub processes : Map Text Signaller
  pub links : List Text

pub data TrackerError : Type 0 where
  unknown_process failed_process : Text → TrackerError

unfoldable pub is_among : Text → List Text → Bool
is_among id [] = false
is_among id (x ∷ xs) = text_beq x id || is_among id xs

unfoldable pub without_one : Text → List Text → List Text
without_one id [] = []
without_one id (x ∷ xs) = if text_beq x id then xs else x ∷ without_one id xs

module _ {S : Type 0} where
  unfoldable pub register : Text → S → Tracker S → Tracker S
  register id g t = record t { processes = Map.insert id g t.processes }

  -- `go t.link(processID)`.
  unfoldable pub start_link : Text → Tracker S → Tracker S
  start_link id t = record t { links = id ∷ t.links }

  -- `Spawn` gives two errors, one when the process is ready and one when it is active.
  unfoldable pub run :
      Text → S → Option Text → Option Text → Tracker S → Tracker S × Outcome TrackerError Text
  unfolding register start_link
  run id g ready active t = elim ready [
    | some e ↦ (register id g t, err (failed_process e))
    | none ↦ elim active [
      | some e ↦ (start_link id (register id g t), err (failed_process e))
      | none ↦ (start_link id (register id g t), ok id)
    ]
  ]

  unfoldable pub attach : Text → Tracker S → Tracker S × Outcome TrackerError Text
  unfolding start_link
  attach id t = elim (Map.lookup id t.processes) [
    | none ↦ (t, err (unknown_process id))
    | some g ↦ (start_link id t, ok id)
  ]

  unfoldable pub restore : Text → S → Tracker S → Tracker S
  unfolding register start_link
  restore id g t = start_link id (register id g t)

  unfoldable pub active_processes : Tracker S → List Text
  active_processes t = map (λ p. p.0) t.processes

  -- A link ends: `unregister` of its process.
  unfoldable pub end_link : Text → Tracker S → Tracker S
  unfolding is_among without_one
  end_link id t =
      if is_among id t.links
      then record { processes = Map.delete id t.processes; links = without_one id t.links }
      else t

-- The calls of the tracker, and the ends of links.
pub data Step (S : Type 0) : Type 0 where
  runs : Text → S → Option Text → Option Text → Step S
  attaches ends : Text → Step S
  restores : Text → S → Step S

module _ {S : Type 0} where
  unfoldable pub take_step : Step S → Tracker S → Tracker S
  unfolding run attach restore end_link
  take_step (runs id g ready active) t = (run id g ready active t).0
  take_step (attaches id) t = (attach id t).0
  take_step (ends id) t = end_link id t
  take_step (restores id g) t = restore id g t

  unfoldable pub take_steps : List (Step S) → Tracker S → Tracker S
  unfolding take_step
  take_steps [] t = t
  take_steps (x ∷ xs) t = take_steps xs (take_step x t)

  -- A step does not name the process, unless by the end of a link.
  abbrev pub Leaves : Text → Step S → Type 0
  Leaves id (runs j g ready active) = text_beq j id ≡ false
  Leaves id (attaches j) = text_beq j id ≡ false
  Leaves id (ends j) = Unit
  Leaves id (restores j g) = text_beq j id ≡ false

  -- A process that is run gets ready.
  abbrev pub GetsReady : Step S → Type 0
  GetsReady (runs j g ready active) = ready ≡ none
  GetsReady (attaches j) = Unit
  GetsReady (ends j) = Unit
  GetsReady (restores j g) = Unit
