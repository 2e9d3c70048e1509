-- ===== src/Yarn/Process.antt =====
-- The one process of the nide manager over any calls on its container, and what is left of the
-- container when the backend destroys it.
use garden_linux.Common.{
  ℕ, ◌+◌, ◌≤◌, ◌≡◌, ◌≢◌, inl, inr, refl, Bool, true, false, List, [], ◌∷◌, Option, none, some,
  if◌then◌else◌, ok, err, panic, arith, Bool-cases, Option-cases, Text, codes, text_eq, nat_eq,
}
use garden_linux.Yarn.Nide.{
  LimitTypes, YarnContainer, Cmd, Waited, clean, exit_error, wait_error, kill, get_state, run, wait,
  limit_bandwidth, limit_cpu, limit_memory_of, blank, is_active, kill_cmd, wait_cmd,
}

pub data NideCall (l : LimitTypes) : Type 0 where
  kills : NideCall l
  runs : Option Text → NideCall l
  waits : Waited → NideCall l
  limits_bandwidth : l.Bandwidth → NideCall l
  limits_cpu : l.Cpu → NideCall l
  limits_memory : l.Memory → NideCall l

-- A process that was killed had been waited for before.
abbrev pub KilledLate : Option Cmd → Type 0
KilledLate none = Unit {0}
KilledLate (some x) = x.killed ≡ true → x.process_state ≢ none

has_cmd : Option Cmd → ℕ
has_cmd none = 0
has_cmd (some x) = 1

has_cmd-le : (o : Option Cmd) → has_cmd o ≤ 1
unfolding has_cmd
has_cmd-le none = omega arith
has_cmd-le (some x) = omega arith

killed : Option Cmd → Option Cmd
killed o = if is_active o then kill_cmd o else o

killed-KilledLate : (o : Option Cmd) → KilledLate o → KilledLate (killed o)
unfolding killed is_active kill_cmd
killed-KilledLate none h = record {}
killed-KilledLate (some x) h = elim (Bool-cases (is_active (some x))) [
  | inl on ↦ rw on (λ _ waited. ground (arith, on, waited))
  | inr off ↦ rw off h
]

has_cmd-killed : (o : Option Cmd) → has_cmd (killed o) ≡ has_cmd o
unfolding killed is_active kill_cmd has_cmd
has_cmd-killed none = refl
has_cmd-killed (some x) = elim (Bool-cases (is_active (some x))) [
  | inl on ↦ rw on refl
  | inr off ↦ rw off refl
]

wait-KilledLate : (w : Waited) (o : Option Cmd) → KilledLate o → KilledLate (wait_cmd w o)
unfolding wait_cmd
wait-KilledLate w none h = record {}
wait-KilledLate clean (some x) h = λ _ waited. cc
wait-KilledLate (exit_error e s) (some x) h = λ _ waited. cc
wait-KilledLate (wait_error e) (some x) h = h

has_cmd-wait : (w : Waited) (o : Option Cmd) → has_cmd (wait_cmd w o) ≡ has_cmd o
unfolding wait_cmd has_cmd
has_cmd-wait w none = refl
has_cmd-wait w (some x) = refl

alive_unless-late : (x : Cmd) → x.process_state ≡ none → KilledLate (some x) → x.killed ≡ false
alive_unless-late x unwaited late = elim (Bool-cases x.killed) [
  | inl dead ↦ absurd (late dead unwaited)
  | inr alive ↦ alive
]

unkilled : (l : LimitTypes) → KilledLate (blank {l = l}).cmd
unfolding blank
unkilled l = record {}

module _ {l : LimitTypes} where
  -- The container after a call, and whether the call started a process.
  abbrev pub after : NideCall l → YarnContainer l → YarnContainer l × Bool
  after kills c = (kill c, false)
  after (runs starts) c =
      let (d, result) = run starts c in
      (d, elim result [ ok _ ↦ true | err _ ↦ false | panic ↦ false ])
  after (waits w) c = ((wait w c).0, false)
  after (limits_bandwidth b) c = (limit_bandwidth b c, false)
  after (limits_cpu x) c = (limit_cpu x c, false)
  after (limits_memory m) c = (limit_memory_of m c, false)

  -- The container after the calls, and how many of them started a process.
  abbrev pub after_all : List (NideCall l) → YarnContainer l → YarnContainer l × ℕ
  after_all [] c = (c, 0)
  after_all (call ∷ calls) c =
      let (d, started) = after call c in
      let (e, n) = after_all calls d in (e, (if started then 1 else 0) + n)

  kill-cmd : (c : YarnContainer l) → (kill c).cmd ≡ killed c.cmd
  unfolding kill killed
  kill-cmd c = elim (Bool-cases (is_active c.cmd)) [ inl on ↦ rw on refl | inr off ↦ rw off refl ]

  -- A start sets the command where there was none.
  run_lem :
      (starts : Option Text) (c : YarnContainer l)
      → let (d, started) = after (runs starts) c in
        (KilledLate c.cmd → KilledLate d.cmd)
        × (has_cmd c.cmd + (if started then 1 else 0) ≤ has_cmd d.cmd)
  unfolding run has_cmd
  run_lem none c = elim (Option-cases c.cmd) [
    | inl fresh ↦ rw fresh (λ _ late. absurd (ground (arith, late)), omega arith)
    | inr (x, busy) ↦ rw busy (λ h. h, omega arith)
  ]
  run_lem (some e) c = elim (Option-cases c.cmd) [
    | inl fresh ↦ rw fresh (λ _ late. absurd (ground (arith, late)), omega arith)
    | inr (x, busy) ↦ rw busy (λ h. h, omega arith)
  ]

  after-started :
      (call : NideCall l) (c : YarnContainer l)
      → let (d, started) = after call c in
        has_cmd c.cmd + (if started then 1 else 0) ≤ has_cmd d.cmd
  unfolding limit_bandwidth limit_cpu limit_memory_of has_cmd wait
  after-started kills c = rw (kill-cmd c, has_cmd-killed c.cmd) (omega arith)
  after-started (runs starts) c = (run_lem starts c).1
  after-started (waits w) c = rw (has_cmd-wait w c.cmd) (omega arith)
  after-started (limits_bandwidth b) c = omega arith
  after-started (limits_cpu x) c = omega arith
  after-started (limits_memory m) c = omega arith

  after-KilledLate :
      (call : NideCall l) (c : YarnContainer l) → KilledLate c.cmd → KilledLate (after call c).0.cmd
  unfolding wait wait_cmd limit_bandwidth limit_cpu limit_memory_of
  after-KilledLate kills c h = rw (kill-cmd c) (killed-KilledLate c.cmd h)
  after-KilledLate (runs starts) c h = (run_lem starts c).0 h
  after-KilledLate (waits w) c h = wait-KilledLate w c.cmd h
  after-KilledLate (limits_bandwidth b) c h = h
  after-KilledLate (limits_cpu x) c h = h
  after-KilledLate (limits_memory m) c h = h

  after_all-KilledLate :
      (calls : List (NideCall l)) (c : YarnContainer l)
      → KilledLate c.cmd
      → KilledLate (after_all calls c).0.cmd
  after_all-KilledLate [] c h = h
  after_all-KilledLate (call ∷ calls) c h =
      after_all-KilledLate calls (after call c).0 (after-KilledLate call c h)

  after_all-started :
      (calls : List (NideCall l)) (c : YarnContainer l) → has_cmd c.cmd + (after_all calls c).1 ≤ 1
  after_all-started [] c = omega (arith, has_cmd-le c.cmd)
  after_all-started (call ∷ calls) c =
      omega (arith, after-started call c, after_all-started calls (after call c).0)

  -- What a client that has not waited for the process is told.
  unwaited-get_state :
      (c : YarnContainer l) (x : Cmd)
      → c.cmd ≡ some x
      → x.process_state ≡ none
      → (get_state c ≡ codes "stopped") × (kill c ≡ c)
  unfolding is_active get_state kill
  unwaited-get_state c x at unwaited =
      let off : is_active c.cmd ≡ false = rw (at, unwaited) refl in (rw off refl, rw off refl)

  -- Whatever calls are made on a new container of the nide manager, at most one of them starts a
  -- process, the process is killed only after it has been waited for, and as long as it has not
  -- been waited for the container says that it is stopped and `kill` does nothing.
  pub after_all-blank :
      (calls : List (NideCall l))
      → let (c, starts) = after_all calls blank in
        (starts ≤ 1)
        × KilledLate c.cmd
        × ((x : Cmd)
            → c.cmd ≡ some x
            → x.process_state ≡ none
            → (get_state c ≡ codes "stopped") × (kill c ≡ c) × (x.killed ≡ false))
  after_all-blank calls =
      let late = after_all-KilledLate calls blank (unkilled l) in
      (
        omega (arith, after_all-started calls blank),
        late,
        λ x held unwaited.
            let (stopped, same) = unwaited-get_state (after_all calls blank).0 x held unwaited in
            (stopped, same, alive_unless-late x unwaited (rw held at late)),
      )
