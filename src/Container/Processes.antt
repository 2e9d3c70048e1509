-- ===== src/Container/Processes.antt =====
-- linux_container/running.go, and the pool of process ids of linux_container.go.
use garden_linux.Common.{
  ℕ, ◌+◌, ◌%◌, ◌^◌, Bool, true, false, List, [], ◌∷◌, ◌++◌, if◌then◌else◌, leb, Outcome, ok, err,
  panic, ◌>>=◌, Text, codes, text_beq, text_eq, nat_eq,
}
use garden_linux.Common.Map.{Map}
use garden_linux.Common.Decimal.{decimal}
use garden_linux.Environment.{EnvError, new_env, merge, array}
use garden_linux.Rlimits.{ResourceLimits, set_rlimits_env}
use garden_linux.Container.{
  Command, Signaller, namespaced, link, Host, LinuxContainer, Result, ContainerError, failed,
  bad_env, no_user, in_directory,
}

-- `ProcessIDPool.Next` and `Restore` on the counter, a uint32.
unfoldable pub next_process_id : ℕ → ℕ
next_process_id current = (current + 1) % 2 ^ 32

unfoldable pub restore_process_id : ℕ → ℕ → ℕ
restore_process_id id current = if leb current id then id else current

-- `garden.ProcessSpec`; it also has limits, which are set in the environment of the command.
pub record ProcessSpec : Type 0 where
  pub program : Text
  pub args : List Text
  pub env : List Text
  pub dir : Text
  pub user : Text
  pub limits : ResourceLimits
  pub tty : Bool

-- `for _, envVar := range processEnv.Array() { args = append(args, "--env", envVar) }`.
unfoldable pub env_args : List Text → List Text
env_args [] = []
env_args (v ∷ vs) = codes "--env" ∷ v ∷ env_args vs

or_bad_env : Outcome EnvError (Map Text Text) → Outcome ContainerError (Map Text Text)
or_bad_env (ok env) = ok env
or_bad_env (err e) = err (bad_env e)
or_bad_env panic = panic

module _ {h : Host} where
  unfoldable pub process_signaller : LinuxContainer h → Signaller
  process_signaller c = if h.is_missing c.spec.version then namespaced else link

  -- The arguments of wsh for a process of the id, with the environment that was merged.
  unfoldable pub wsh_args : LinuxContainer h → ProcessSpec → Map Text Text → ℕ → List Text
  unfolding env_args
  wsh_args c spec env id =
      codes "--socket"
      ∷ in_directory c.spec.container_path (codes "run/wshd.sock")
      ∷ codes "--readSignals"
      ∷ codes "--user"
      ∷ spec.user
      ∷ (env_args (array env)
          ++ (if text_beq spec.dir [] then [] else codes "--dir" ∷ spec.dir ∷ [])
          ++ (if h.is_missing c.spec.version
              then codes "--pidfile"
                ∷ in_directory c.spec.container_path
                    (codes "processes/" ++ decimal id ++ codes ".pid")
                ∷ []
              else [])
          ++ spec.program ∷ spec.args)

  -- The environment of a process: that of its own specification overrides the container's.
  unfoldable pub process_env :
      LinuxContainer h → ProcessSpec → Outcome ContainerError (Map Text Text)
  unfolding or_bad_env
  process_env c spec = do
    spec_env ← or_bad_env (new_env spec.env)
    proc_env ← or_bad_env (new_env c.spec.env)
    ok (merge proc_env spec_env)

  run_with : LinuxContainer h → ProcessSpec → Map Text Text → h.Kernel → Result h Text
  unfolding next_process_id wsh_args process_signaller
  run_with c spec env k =
      let id = next_process_id c.current_process_id in
      let c' = record c { current_process_id = id } in
      let wsh : Command = record {
        program = in_directory c.spec.container_path (codes "bin/wsh");
        args = wsh_args c spec env id;
        env = set_rlimits_env spec.limits [];
      } in
      let (k', started) = h.tracker_run (decimal id) wsh spec.tty (process_signaller c) k in
      elim started [
        | ok p ↦ (c', k', ok p)
        | err e ↦ (c', k', err (failed e))
        | panic ↦ (c', k', panic)
      ]

  -- `Run`: the result is the process of the tracker.
  unfoldable pub run_process : ProcessSpec → LinuxContainer h → h.Kernel → Result h Text
  unfolding process_env run_with
  run_process spec c k = elim (text_beq spec.user []) [
    | true ↦ (c, k, err no_user)
    | false ↦ elim (process_env c spec) [
      | err e ↦ (c, k, err e)
      | panic ↦ (c, k, panic)
      | ok env ↦ run_with c spec env k
    ]
  ]
