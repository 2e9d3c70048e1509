-- ===== src/Container/Metrics.antt =====
-- linux_container/metrics.go: what the cgroup files say of a container's memory and CPU.
use garden_linux.Common.{
  ℕ, ◌+◌, ◌-◌, ◌%◌, ◌^◌, Bool, true, false, ◌&&◌, ◌||◌, List, [], ◌∷◌, Option, none, some, ◌==◌,
  leb, ltb, Outcome, ok, ◌>>=◌, Text, codes, text_eq, nat_eq,
}
use garden_linux.Container.{Host, LinuxContainer, ContainerError}
use garden_linux.Container.Limiting.{or_failed}
use garden_linux.Common.Map
use garden_linux.Common.Map.{Map}
use garden_linux.Common.Decimal.{parse_uint}

-- The blanks of ASCII.
unfoldable pub is_space : ℕ → Bool
is_space c = c == 32 || (leb 9 c && ltb c 14)

unfoldable pub reversed : Text → Text → Text
reversed [] acc = acc
reversed (c ∷ s) acc = reversed s (c ∷ acc)

-- `bufio.ScanWords`: the letters of the word that is read, in reverse, and the rest.
unfoldable pub words_after : Text → Text → List Text
unfolding is_space reversed
words_after [] [] = []
words_after (l ∷ letters) [] = reversed (l ∷ letters) [] ∷ []
words_after letters (c ∷ s) = elim (is_space c) [
  | false ↦ words_after (c ∷ letters) s
  | true ↦ elim letters [ [] ↦ words_after [] s | l ∷ ls ↦ reversed (l ∷ ls) [] ∷ words_after [] s ]
]

-- The loops over fields and values; a value that is no number is left out.
unfoldable pub read_fields : List Text → Map Text ℕ → Map Text ℕ
read_fields [] stat = stat
read_fields (field ∷ []) stat = stat
read_fields (field ∷ value ∷ rest) stat = elim (parse_uint value) [
  | none ↦ read_fields rest stat
  | some n ↦ read_fields rest (Map.insert field n stat)
]

-- A field that was not read is 0.
unfoldable pub field_of : Text → Map Text ℕ → ℕ
field_of name stat = elim (Map.lookup name stat) [ none ↦ 0 | some n ↦ n ]

-- `garden.ContainerMemoryStat`.
pub record MemoryStat : Type 0 where
  pub cache : ℕ
  pub rss : ℕ
  pub mapped_file : ℕ
  pub pgpgin : ℕ
  pub pgpgout : ℕ
  pub swap : ℕ
  pub pgfault : ℕ
  pub pgmajfault : ℕ
  pub inactive_anon : ℕ
  pub active_anon : ℕ
  pub inactive_file : ℕ
  pub active_file : ℕ
  pub unevictable : ℕ
  pub hierarchical_memory_limit : ℕ
  pub hierarchical_memsw_limit : ℕ
  pub total_cache : ℕ
  pub total_rss : ℕ
  pub total_mapped_file : ℕ
  pub total_pgpgin : ℕ
  pub total_pgpgout : ℕ
  pub total_swap : ℕ
  pub total_pgfault : ℕ
  pub total_pgmajfault : ℕ
  pub total_inactive_anon : ℕ
  pub total_active_anon : ℕ
  pub total_inactive_file : ℕ
  pub total_active_file : ℕ
  pub total_unevictable : ℕ
  pub total_usage_toward_limit : ℕ

-- The sum and the difference wrap around.
unfoldable pub toward_limit : ℕ → ℕ → ℕ → ℕ
toward_limit rss cache inactive_file = (rss + (cache + 2 ^ 64 - inactive_file) % 2 ^ 64) % 2 ^ 64

unfoldable pub parse_memory_stat : Text → MemoryStat
unfolding words_after read_fields field_of toward_limit
parse_memory_stat contents =
    let stat = read_fields (words_after [] contents) [] in
    record {
      cache = field_of (codes "cache") stat;
      rss = field_of (codes "rss") stat;
      mapped_file = field_of (codes "mapped_file") stat;
      pgpgin = field_of (codes "pgpgin") stat;
      pgpgout = field_of (codes "pgpgout") stat;
      swap = field_of (codes "swap") stat;
      pgfault = field_of (codes "pgfault") stat;
      pgmajfault = field_of (codes "pgmajfault") stat;
      inactive_anon = field_of (codes "inactive_anon") stat;
      active_anon = field_of (codes "active_anon") stat;
      inactive_file = field_of (codes "inactive_file") stat;
      active_file = field_of (codes "active_file") stat;
      unevictable = field_of (codes "unevictable") stat;
      hierarchical_memory_limit = field_of (codes "hierarchical_memory_limit") stat;
      hierarchical_memsw_limit = field_of (codes "hierarchical_memsw_limit") stat;
      total_cache = field_of (codes "total_cache") stat;
      total_rss = field_of (codes "total_rss") stat;
      total_mapped_file = field_of (codes "total_mapped_file") stat;
      total_pgpgin = field_of (codes "total_pgpgin") stat;
      total_pgpgout = field_of (codes "total_pgpgout") stat;
      total_swap = field_of (codes "total_swap") stat;
      total_pgfault = field_of (codes "total_pgfault") stat;
      total_pgmajfault = field_of (codes "total_pgmajfault") stat;
      total_inactive_anon = field_of (codes "total_inactive_anon") stat;
      total_active_anon = field_of (codes "total_active_anon") stat;
      total_inactive_file = field_of (codes "total_inactive_file") stat;
      total_active_file = field_of (codes "total_active_file") stat;
      total_unevictable = field_of (codes "total_unevictable") stat;
      total_usage_toward_limit =
          toward_limit (field_of (codes "total_rss") stat) (field_of (codes "total_cache") stat)
            (field_of (codes "total_inactive_file") stat);
    }

without_breaks : Text → Text
without_breaks [] = []
without_breaks (c ∷ s) = elim (c == 10) [ true ↦ without_breaks s | false ↦ c ∷ s ]

trimmed : Text → Text
unfolding without_breaks reversed
trimmed s = reversed (without_breaks (reversed (without_breaks s) [])) []

-- `garden.ContainerCPUStat`.
pub record CpuStat : Type 0 where
  pub usage : ℕ
  pub user : ℕ
  pub system : ℕ

-- The usage without the line breaks around it, `strings.Trim(usage, "\n")`, and the text of
-- cpuacct.stat.
unfoldable pub parse_cpu_stat : Text → Text → CpuStat
unfolding words_after read_fields field_of trimmed
parse_cpu_stat usage contents = elim (parse_uint (trimmed usage)) [
  | none ↦ record { usage = 0; user = 0; system = 0 }
  | some n ↦
      let stat = read_fields (words_after [] contents) [] in
      record {
        usage = n;
        user = field_of (codes "user") stat;
        system = field_of (codes "system") stat;
      }
]

-- `garden.Metrics`: memory, CPU, disk, and the bytes that the container received and sent.
pub record Metrics (DiskStat : Type 0) : Type 0 where
  pub memory_stat : MemoryStat
  pub cpu_stat : CpuStat
  pub disk_stat : DiskStat
  pub rx_bytes : ℕ
  pub tx_bytes : ℕ

-- The usage of the disk and the counters of the host's interface, received and sent, are
-- parameters; the error of the counters is logged.
unfoldable pub metrics :
    {h : Host} {DiskStat : Type 0}
    → (Text → h.Kernel → Outcome Text DiskStat)
    → (h.Kernel → (ℕ × ℕ) × Option Text)
    → LinuxContainer h
    → h.Kernel
    → Outcome ContainerError (Metrics DiskStat)
unfolding parse_memory_stat parse_cpu_stat or_failed
metrics {h} get_usage statistics c k = do
  disk_stat ← or_failed (get_usage c.spec.container_root_fs_path k)
  cpu_stat ← or_failed (h.cgroup_get (codes "cpuacct") (codes "cpuacct.stat") k)
  cpu_usage ← or_failed (h.cgroup_get (codes "cpuacct") (codes "cpuacct.usage") k)
  memory_stat ← or_failed (h.cgroup_get (codes "memory") (codes "memory.stat") k)
  let counters = (statistics k).0
  ok (record {
    memory_stat = parse_memory_stat memory_stat;
    cpu_stat = parse_cpu_stat cpu_usage cpu_stat;
    disk_stat = disk_stat;
    rx_bytes = counters.1;
    tx_bytes = counters.0;
  })
