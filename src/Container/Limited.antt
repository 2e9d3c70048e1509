-- ===== src/Container/Limited.antt =====
-- What a container's limits and process ids are after they have been set or restored.
use garden_linux.Common.{
  ℕ, ◌+◌, ◌^◌, ◌≤◌, ◌<◌, ◌≡◌, List, [], ◌∷◌, none, some, set, All, ok, arith, Text, codes, text_eq,
  nat_eq, All-map,
}
use garden_linux.Common.Decimal.{decimal, parse_uint-decimal}
use garden_linux.Container.{
  ActiveProcess, Signaller, Host, LinuxContainer, ℕ, List, ◌<◌, All, ◌≤◌, ◌^◌, arith, ◌∷◌, Text,
  ◌≡◌, none,
}
use garden_linux.Container.Limiting.{
  limit_memory, limit_cpu, current_cpu_limits, current_memory_limits, read_number,
  write_memory_limit,
}
use garden_linux.Container.Processes.{restore_process_id, next_process_id}
use garden_linux.Container.Snapshots.{restore_processes}

module _ {h : Host} where
  limit_cpu-current :
      (n : ℕ) (c : LinuxContainer h) (k : h.Kernel)
      → n < 2 ^ 64
      → ((group file value : Text) (k' : h.Kernel)
          → (h.cgroup_set group file value k').1 ≡ none
          → h.cgroup_get group file (h.cgroup_set group file value k').0 ≡ ok value)
      → (limit_cpu n c k).2 ≡ ok tt
      → let (c', k', _) = limit_cpu n c k in
        (current_cpu_limits c' k' ≡ ok n) × (c'.spec.limits.cpu ≡ some n)
  unfolding limit_cpu current_cpu_limits read_number
  limit_cpu-current n c k small kept done =
      ground (arith, kept (codes "cpu") (codes "cpu.shares") (decimal n) k, parse_uint-decimal n)

  limit_memory-current :
      (n : ℕ) (c : LinuxContainer h) (k : h.Kernel)
      → n < 2 ^ 64
      → ((group file value : Text) (k' : h.Kernel)
          → (h.cgroup_set group file value k').1 ≡ none
          → h.cgroup_get group file (h.cgroup_set group file value k').0 ≡ ok value)
      → (limit_memory n c k).2 ≡ ok tt
      → let (c', k', _) = limit_memory n c k in
        (current_memory_limits c' k' ≡ ok n) × (c'.spec.limits.memory ≡ some n)
  unfolding limit_memory current_memory_limits read_number write_memory_limit
  limit_memory-current n c k small kept done =
      let (k₁, _) = h.watch k in
      let (k₂, _) = h.cgroup_set (codes "memory") (codes "memory.limit_in_bytes") (decimal n) k₁ in
      let (k₃, _) =
        h.cgroup_set (codes "memory") (codes "memory.memsw.limit_in_bytes") (decimal n) k₂ in
      ground (
        arith,
        kept (codes "memory") (codes "memory.limit_in_bytes") (decimal n) k₃,
        parse_uint-decimal n,
      )

  restore_processes-grows :
      (g : Signaller) (ps : List ActiveProcess) (c : LinuxContainer h) (k : h.Kernel)
      → c.current_process_id ≤ (restore_processes g ps c k).0.current_process_id
  unfolding restore_processes restore_process_id
  restore_processes-grows g [] c k = omega arith
  restore_processes-grows g (p ∷ ps) c k =
      let next : LinuxContainer h = record c {
        current_process_id = restore_process_id p.id c.current_process_id;
      } in
      let ih = restore_processes-grows g ps next (h.tracker_restore (decimal p.id) g k) in
      ground (arith, ih)

  restore_processes-ids :
      (g : Signaller) (ps : List ActiveProcess) (c : LinuxContainer h) (k : h.Kernel)
      → All (λ (p : ActiveProcess). p.id ≤ (restore_processes g ps c k).0.current_process_id) ps
  unfolding restore_processes restore_process_id
  restore_processes-ids g [] c k = tt
  restore_processes-ids g (p ∷ ps) c k =
      let next : LinuxContainer h = record c {
        current_process_id = restore_process_id p.id c.current_process_id;
      } in
      let grown = restore_processes-grows g ps next (h.tracker_restore (decimal p.id) g k) in
      (
        ground (arith, grown),
        restore_processes-ids g ps next (h.tracker_restore (decimal p.id) g k),
      )

  -- After the processes of a snapshot have been restored, the next process id is larger than each
  -- of theirs, unless the counter has reached 2 ^ 32 - 1.
  pub restore_processes-next_process_id :
      (g : Signaller) (ps : List ActiveProcess) (c : LinuxContainer h) (k : h.Kernel)
      → (restore_processes g ps c k).0.current_process_id + 1 < 2 ^ 32
      → All
          (λ (p : ActiveProcess).
            p.id < next_process_id (restore_processes g ps c k).0.current_process_id)
          ps
  unfolding next_process_id
  restore_processes-next_process_id g ps c k room =
      All-map ps (restore_processes-ids g ps c k)
        (λ (p : ActiveProcess) (l : p.id ≤ (restore_processes g ps c k).0.current_process_id).
          ground arith)

  -- On a host whose cgroup files keep what is written: after `LimitCPU` or `LimitMemory` of a
  -- number that a uint64 holds has succeeded, the current limit is read as that number, and the
  -- specification has it.
  pub limits-current :
      (n : ℕ) (c : LinuxContainer h) (k : h.Kernel)
      → n < 2 ^ 64
      → ((group file value : Text) (k' : h.Kernel)
          → (h.cgroup_set group file value k').1 ≡ none
          → h.cgroup_get group file (h.cgroup_set group file value k').0 ≡ ok value)
      → (limit_cpu n c k).2 ≡ ok tt
      → (limit_memory n c k).2 ≡ ok tt
      → let (c₁, k₁, _) = limit_cpu n c k in
        let (c₂, k₂, _) = limit_memory n c k in
        (current_cpu_limits c₁ k₁ ≡ ok n)
        × (c₁.spec.limits.cpu ≡ some n)
        × (current_memory_limits c₂ k₂ ≡ ok n)
        × (c₂.spec.limits.memory ≡ some n)
  limits-current n c k small kept cpu memory =
      let (read, set) = limit_cpu-current n c k small kept cpu in
      let (read', set') = limit_memory-current n c k small kept memory in (read, set, read', set')
