-- ===== src/ProcessTracker/Linked.antt =====
-- Which processes have a link, and so which are forgotten in the end.
use garden_linux.Common.{
  ◌≡◌, ◌≢◌, refl, ap, ◌∙◌, true, false, ◌||◌, List, [], ◌∷◌, map, Option, some, All, err, arith,
  Text, text_beq, text_beq_iff, text_eq, nat_eq,
}
use garden_linux.Common.Map
use garden_linux.Common.Map.{Map}
use garden_linux.ProcessTracker.{
  Tracker, is_among, without_one, register, start_link, run, attach, restore, active_processes,
  end_link, Step, runs, attaches, ends, restores, take_step, take_steps, Leaves, GetsReady,
  failed_process,
}

is_among-without_one :
    (id j : Text) (xs : List Text) → is_among id xs ≡ false → is_among id (without_one j xs) ≡ false
unfolding is_among without_one
is_among-without_one id j [] e = refl
is_among-without_one id j (x ∷ xs) e = ground (arith, is_among-without_one id j xs)

is_among-without_other :
    (id j : Text) (xs : List Text)
    → text_beq j id ≡ false
    → is_among id (without_one j xs) ≡ is_among id xs
unfolding is_among without_one
is_among-without_other id j [] other = refl
is_among-without_other id j (x ∷ xs) other =
    ground (
      arith,
      is_among-without_other id j xs,
      text_beq_iff x j,
      text_beq_iff x id,
      text_beq_iff j id,
    )

no_key : (S : Type 0) (id : Text) → Map.has_key {V = S} id [] ≢ true
unfolding Map.has_key
no_key S id e = cc (e)

module _ {S : Type 0} where
  -- No link waits for the process, and it is registered.
  record IsStuck (id : Text) (t : Tracker S) : Type 0 where
    unlinked : is_among id t.links ≡ false
    registered : Map.has_key id t.processes ≡ true

  step-IsStuck :
      (id : Text) (x : Step S) (t : Tracker S)
      → Leaves id x
      → IsStuck id t
      → IsStuck id (take_step x t)
  unfolding take_step run attach restore end_link register start_link is_among
  step-IsStuck id (runs j g ready active) t other stuck = record {
    unlinked = ground (arith, stuck.unlinked, text_beq_iff j id);
    registered = ground (arith, stuck.registered, Map.has_key-insert j id g t.processes);
  }
  step-IsStuck id (attaches j) t other stuck = record {
    unlinked = ground (arith, stuck.unlinked, text_beq_iff j id);
    registered = ground (arith, stuck.registered);
  }
  step-IsStuck id (ends j) t other stuck = record {
    unlinked = ground (arith, stuck.unlinked, is_among-without_one id j t.links);
    registered = ground (
      arith,
      stuck.registered,
      stuck.unlinked,
      Map.has_key-delete j id t.processes,
      text_beq_iff j id,
    );
  }
  step-IsStuck id (restores j g) t other stuck = record {
    unlinked = ground (arith, stuck.unlinked, text_beq_iff j id);
    registered = ground (arith, stuck.registered, Map.has_key-insert j id g t.processes);
  }

  steps-IsStuck :
      (id : Text) (xs : List (Step S)) (t : Tracker S)
      → All (Leaves {S = S} id) xs
      → IsStuck id t
      → IsStuck id (take_steps xs t)
  unfolding take_steps
  steps-IsStuck id [] t other stuck = stuck
  steps-IsStuck id (x ∷ xs) t other stuck =
      steps-IsStuck id xs (take_step x t) other.1 (step-IsStuck id x t other.0 stuck)

  is_among-active : (id : Text) (t : Map Text S) → is_among id (map (λ p. p.0) t) ≡ Map.has_key id t
  unfolding is_among Map.has_key
  is_among-active id [] = refl
  is_among-active id ((j, g) ∷ t) = ap (λ b. text_beq j id || b) (is_among-active id t)

  -- When a process does not get ready, `Run` fails and yet the process is among the active ones,
  -- after any steps in which no call names its id, if no link waited for the id before.
  pub run_fails-active_processes :
      (id e : Text) (g : S) (active : Option Text) (t : Tracker S) (xs : List (Step S))
      → is_among id t.links ≡ false
      → All (Leaves {S = S} id) xs
      → let (t', r) = run id g (some e) active t in
        (r ≡ err (failed_process e)) × (is_among id (active_processes (take_steps xs t')) ≡ true)
  unfolding run register active_processes
  run_fails-active_processes id e g active t xs free other =
      let stuck : IsStuck id (register id g t) = record {
        unlinked = free;
        registered = ground (arith, Map.has_key-insert id id g t.processes, text_beq_iff id id);
      } in
      let left = steps-IsStuck id xs (register id g t) other stuck in
      (refl, is_among-active id _ ∙ left.registered)

  -- Each process has a link.
  unfoldable IsLinked : Tracker S → Type 0
  IsLinked t = (id : Text) → Map.has_key id t.processes ≡ true → is_among id t.links ≡ true

  step-IsLinked : (x : Step S) (t : Tracker S) → GetsReady x → IsLinked t → IsLinked (take_step x t)
  unfolding take_step run attach restore end_link register start_link is_among IsLinked
  step-IsLinked (runs j g ready active) t fine linked id =
      ground (arith, linked id, fine, Map.has_key-insert j id g t.processes, text_beq_iff j id)
  step-IsLinked (attaches j) t fine linked id = ground (arith, linked id)
  step-IsLinked (ends j) t fine linked id =
      ground
        (arith, linked id, Map.has_key-delete j id t.processes, is_among-without_other id j t.links)
  step-IsLinked (restores j g) t fine linked id =
      ground (arith, linked id, Map.has_key-insert j id g t.processes, text_beq_iff j id)

  steps-IsLinked :
      (xs : List (Step S)) (t : Tracker S)
      → All GetsReady xs
      → IsLinked t
      → IsLinked (take_steps xs t)
  unfolding take_steps
  steps-IsLinked [] t fine linked = linked
  steps-IsLinked (x ∷ xs) t fine linked =
      steps-IsLinked xs (take_step x t) fine.1 (step-IsLinked x t fine.0 linked)

  unlinked-processes : (m : Map Text S) → ((id : Text) → Map.has_key id m ≡ false) → m ≡ []
  unfolding Map.has_key
  unlinked-processes [] none_left = refl
  unlinked-processes ((j, g) ∷ m) none_left = absurd (ground (arith, none_left j, text_beq_iff j j))

  first_ends :
      (l : Text) (ls : List Text) (t : Tracker S)
      → t.links ≡ l ∷ ls
      → (take_step (ends l) t).links ≡ ls
  unfolding take_step end_link is_among without_one
  first_ends l ls t e = ground (arith, ap (is_among l) e, ap (without_one l) e, text_beq_iff l l)

  end_all :
      (ls : List Text) (t : Tracker S)
      → t.links ≡ ls
      → IsLinked t
      → active_processes (take_steps (map ends ls) t) ≡ []
  unfolding take_steps active_processes IsLinked is_among
  end_all [] t empty linked =
      ap (map (λ p. p.0))
        (unlinked-processes t.processes (λ id. ground (arith, linked id, ap (is_among id) empty)))
  end_all (l ∷ ls) t some_left linked =
      end_all ls (take_step (ends l) t) (first_ends l ls t some_left)
        (step-IsLinked (ends l) t tt linked)

  -- After any steps of an empty tracker (runs of processes that get ready, attaches, restores,
  -- ends of links), once every link that is left has ended no process is active any more.
  pub take_steps-end :
      (xs : List (Step S))
      → All GetsReady xs
      → let t = take_steps xs (record { processes = []; links = [] }) in
        active_processes (take_steps (map ends t.links) t) ≡ []
  unfolding IsLinked
  take_steps-end xs fine = end_all _ _ refl (
      steps-IsLinked xs (record { processes = []; links = [] }) fine
        (λ id e. absurd (no_key S id e)))
