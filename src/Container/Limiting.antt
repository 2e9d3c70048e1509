-- ===== src/Container/Limiting.antt =====
-- linux_container/limits.go: limits are set on the host and then kept, and read back.
use garden_linux.Common.{
  ℕ, true, Option, none, some, Outcome, ok, err, panic, ◌>>=◌, Text, codes, text_eq, nat_eq,
}
use garden_linux.Common.Decimal.{decimal, parse_uint}
use garden_linux.Container.{
  Host, LinuxContainer, Result, ContainerError, failed, bad_number, register_event, stop,
}

-- An error of a string manager.
unfoldable pub or_failed : {A : Type 0} → Outcome Text A → Outcome ContainerError A
or_failed (ok a) = ok a
or_failed (err e) = err (failed e)
or_failed panic = panic

-- `strconv.ParseUint` of the content of a cgroup file.
unfoldable pub read_number : Outcome Text Text → Outcome ContainerError ℕ
unfolding or_failed
read_number content =
    or_failed content >>= λ s. elim (parse_uint s) [ none ↦ err (bad_number s) | some n ↦ ok n ]

module _ {h : Host} where
  unfoldable pub limit_bandwidth : h.Bandwidth → LinuxContainer h → h.Kernel → Result h (Unit {0})
  limit_bandwidth limits c k =
      let (k', refused) = h.bandwidth_set limits k in
      elim refused [
        | some e ↦ (c, k', err (failed e))
        | none ↦ (
          record c {
            spec = record c.spec { limits = record c.spec.limits { bandwidth = some limits } };
          },
          k',
          ok tt,
        )
      ]

  unfoldable pub current_bandwidth_limits : LinuxContainer h → h.Bandwidth
  current_bandwidth_limits c = elim c.spec.limits.bandwidth [
    | none ↦ h.zero_bandwidth
    | some limits ↦ limits
  ]

  unfoldable pub limit_disk : h.Disk → LinuxContainer h → h.Kernel → Result h (Unit {0})
  limit_disk limits c k =
      let (k', refused) = h.quota_set c.spec.container_root_fs_path limits k in
      elim refused [
        | some e ↦ (c, k', err (failed e))
        | none ↦ (
          record c {
            spec = record c.spec { limits = record c.spec.limits { disk = some limits } };
          },
          k',
          ok tt,
        )
      ]

  unfoldable pub current_disk_limits : LinuxContainer h → h.Kernel → Outcome ContainerError h.Disk
  unfolding or_failed
  current_disk_limits c k = or_failed (h.quota_get c.spec.container_root_fs_path k)

  -- The three writes of `LimitMemory`; the errors of the first two are dropped.
  unfoldable pub write_memory_limit : LinuxContainer h → Text → h.Kernel → h.Kernel × Option Text
  write_memory_limit c limit k =
      let (k₁, _) = h.cgroup_set (codes "memory") (codes "memory.limit_in_bytes") limit k in
      let (k₂, _) = h.cgroup_set (codes "memory") (codes "memory.memsw.limit_in_bytes") limit k₁ in
      h.cgroup_set (codes "memory") (codes "memory.limit_in_bytes") limit k₂

  -- The watcher calls `on_oom` later, if memory runs out.
  unfoldable pub limit_memory : ℕ → LinuxContainer h → h.Kernel → Result h (Unit {0})
  unfolding write_memory_limit
  limit_memory limit_in_bytes c k =
      let (k₁, not_watched) = h.watch k in
      elim not_watched [
        | some e ↦ (c, k₁, err (failed e))
        | none ↦
            let (k₂, refused) = write_memory_limit c (decimal limit_in_bytes) k₁ in
            elim refused [
              | some e ↦ (c, k₂, err (failed e))
              | none ↦ (
                record c {
                  spec = record c.spec {
                    limits = record c.spec.limits { memory = some limit_in_bytes };
                  };
                },
                k₂,
                ok tt,
              )
            ]
      ]

  -- `c.registerEvent("out of memory"); c.Stop(true)`, whose error is dropped.
  unfoldable pub on_oom : LinuxContainer h → h.Kernel → LinuxContainer h × h.Kernel
  on_oom c k = let (c', k', _) = stop true (register_event (codes "out of memory") c) k in (c', k')

  unfoldable pub current_memory_limits : LinuxContainer h → h.Kernel → Outcome ContainerError ℕ
  unfolding read_number
  current_memory_limits c k =
      read_number (h.cgroup_get (codes "memory") (codes "memory.limit_in_bytes") k)

  unfoldable pub limit_cpu : ℕ → LinuxContainer h → h.Kernel → Result h (Unit {0})
  limit_cpu limit_in_shares c k =
      let (k', refused) =
        h.cgroup_set (codes "cpu") (codes "cpu.shares") (decimal limit_in_shares) k in
      elim refused [
        | some e ↦ (c, k', err (failed e))
        | none ↦ (
          record c {
            spec = record c.spec { limits = record c.spec.limits { cpu = some limit_in_shares } };
          },
          k',
          ok tt,
        )
      ]

  unfoldable pub current_cpu_limits : LinuxContainer h → h.Kernel → Outcome ContainerError ℕ
  unfolding read_number
  current_cpu_limits c k = read_number (h.cgroup_get (codes "cpu") (codes "cpu.shares") k)
