-- ===== src/Rlimits.antt =====
-- container_daemon/rlimits_manager.go: the limits of a process, as entries of one line of text
-- and as numbers of the kernel; and `setRLimitsEnv` of linux_container/running.go.
pub mod Words
pub mod RoundTrip
mod Tests
use garden_linux.Common.{
  ℕ, zero, suc, ◌+◌, ◌-◌, ◌*◌, ◌/◌, ◌%◌, ◌^◌, ◌≤◌, ◌<◌, ◌≡◌, ◌≢◌, ◌↔◌, ◌⊎◌, inl, inr, refl, sym, ap,
  ◌∙◌, Bool, true, false, not, ◌&&◌, ◌||◌, List, [], ◌∷◌, ◌++◌, map, append-nil, append_assoc,
  Option, none, some, ◌==◌, ==_iff, if◌then◌else◌, leb, ltb, length, length-append, take, drop, set,
  count, count-append, All, Outcome, ok, err, panic, ◌>>=◌, >>=-eq-ok, arith, Bool-cases,
  Option-cases, List-cases, lt-or-ge, eq-or-ne, Text, codes, text_beq, text_beq_iff, text_eq,
  nat_eq, Eq, snoc-ne-nil, Outcome-cases, range, replicate,
}
use garden_linux.Common.Map
use garden_linux.Common.Map.{Map}
use garden_linux.Common.Decimal.{decimal}
use garden_linux.Environment.{split_n}

-- `garden.ResourceLimits`: pointers to uint64.
pub record ResourceLimits : Type 0 where
  pub address_space : Option ℕ
  pub core : Option ℕ
  pub cpu : Option ℕ
  pub data_size : Option ℕ
  pub fsize : Option ℕ
  pub locks : Option ℕ
  pub memlock : Option ℕ
  pub msgqueue : Option ℕ
  pub nice : Option ℕ
  pub nofile : Option ℕ
  pub nproc : Option ℕ
  pub rss : Option ℕ
  pub rtprio : Option ℕ
  pub sigpending : Option ℕ
  pub stack : Option ℕ

-- `if limit != nil { limits = append(limits, fmt.Sprintf("NAME=%d", *limit)) }`.
unfoldable pub entry : Text → Option ℕ → List Text → List Text
entry name none limits = limits
entry name (some n) limits = limits ++ (name ++ 61 ∷ decimal n) ∷ []

-- The fields in the order of the source, each with its name.
unfoldable pub fields : ResourceLimits → List (Text × Option ℕ)
fields r =
    (codes "RLIMIT_AS", r.address_space)
    ∷ (codes "RLIMIT_CORE", r.core)
    ∷ (codes "RLIMIT_CPU", r.cpu)
    ∷ (codes "RLIMIT_DATA", r.data_size)
    ∷ (codes "RLIMIT_FSIZE", r.fsize)
    ∷ (codes "RLIMIT_LOCKS", r.locks)
    ∷ (codes "RLIMIT_MEMLOCK", r.memlock)
    ∷ (codes "RLIMIT_MSGQUEUE", r.msgqueue)
    ∷ (codes "RLIMIT_NICE", r.nice)
    ∷ (codes "RLIMIT_NOFILE", r.nofile)
    ∷ (codes "RLIMIT_NPROC", r.nproc)
    ∷ (codes "RLIMIT_RSS", r.rss)
    ∷ (codes "RLIMIT_RTPRIO", r.rtprio)
    ∷ (codes "RLIMIT_SIGPENDING", r.sigpending)
    ∷ (codes "RLIMIT_STACK", r.stack)
    ∷ []

unfoldable pub entries : List (Text × Option ℕ) → List Text → List Text
unfolding entry
entries [] limits = limits
entries ((name, limit) ∷ rest) limits = entries rest (entry name limit limits)

-- The environment of the command, with the entries added.
unfoldable pub set_rlimits_env : ResourceLimits → List Text → List Text
unfolding entries fields
set_rlimits_env r env = entries (fields r) env

-- `strings.Join(limits, ",")`: 44 is a comma.
unfoldable pub join : List Text → Text
join [] = []
join (x ∷ []) = x
join (x ∷ y ∷ ys) = x ++ 44 ∷ join (y ∷ ys)

unfoldable pub encode_limits : ResourceLimits → Text
unfolding entries fields join
encode_limits r = join (entries (fields r) [])

-- `strings.Split(s, ",")`.
unfoldable pub split : Text → List Text
split [] = [] ∷ []
split (c ∷ s) =
    let rest = split s in
    if c == 44
    then [] ∷ rest
    else elim rest [ [] ↦ (c ∷ []) ∷ [] | word ∷ words ↦ (c ∷ word) ∷ words ]

-- `fmt.Sscanf(s, "%d", &val)` into a uint64: blanks are skipped, then at least one digit is read,
-- and what follows the digits is left alone. A value of 2 ^ 64 or more is an error.
unfoldable pub scan_digits : ℕ → Text → Option ℕ
scan_digits value [] = some value
scan_digits value (c ∷ s) = elim (leb 48 c && ltb c 58) [
  | false ↦ some value
  | true ↦ elim (ltb (value * 10 + (c - 48)) (2 ^ 64)) [
    | false ↦ none
    | true ↦ scan_digits (value * 10 + (c - 48)) s
  ]
]

unfoldable pub sscanf : Text → Option ℕ
unfolding scan_digits
sscanf [] = none
sscanf (c ∷ s) = elim (c == 32 || c == 9) [
  | true ↦ sscanf s
  | false ↦ elim (leb 48 c && ltb c 58) [ false ↦ none | true ↦ scan_digits 0 (c ∷ s) ]
]

-- The loop of `decode`. An entry that cannot be read is left out.
unfoldable pub decode_each : List Text → Map Text ℕ → Map Text ℕ
unfolding sscanf
decode_each [] env = env
decode_each (str ∷ limits) env = elim (split_n str) [
  | none ↦ decode_each limits env
  | some (name, digits) ↦ elim (sscanf digits) [
    | none ↦ decode_each limits env
    | some val ↦ decode_each limits (Map.insert name val env)
  ]
]

unfoldable pub decode : Text → Map Text ℕ
unfolding decode_each split
decode encoded = decode_each (split encoded) []

unfoldable pub decode_limits : Text → ResourceLimits
unfolding decode
decode_limits encoded =
    let limits = decode encoded in
    record {
      address_space = Map.lookup (codes "RLIMIT_AS") limits;
      core = Map.lookup (codes "RLIMIT_CORE") limits;
      cpu = Map.lookup (codes "RLIMIT_CPU") limits;
      data_size = Map.lookup (codes "RLIMIT_DATA") limits;
      fsize = Map.lookup (codes "RLIMIT_FSIZE") limits;
      locks = Map.lookup (codes "RLIMIT_LOCKS") limits;
      memlock = Map.lookup (codes "RLIMIT_MEMLOCK") limits;
      msgqueue = Map.lookup (codes "RLIMIT_MSGQUEUE") limits;
      nice = Map.lookup (codes "RLIMIT_NICE") limits;
      nofile = Map.lookup (codes "RLIMIT_NOFILE") limits;
      nproc = Map.lookup (codes "RLIMIT_NPROC") limits;
      rss = Map.lookup (codes "RLIMIT_RSS") limits;
      rtprio = Map.lookup (codes "RLIMIT_RTPRIO") limits;
      sigpending = Map.lookup (codes "RLIMIT_SIGPENDING") limits;
      stack = Map.lookup (codes "RLIMIT_STACK") limits;
    }

-- `if limit != nil { m[number] = *limit }`.
unfoldable pub flag : ℕ → Option ℕ → Map ℕ ℕ → Map ℕ ℕ
flag number none m = m
flag number (some n) m = Map.insert number n m

-- The numbers of the kernel, from 0 to 14, in the order of the source.
unfoldable pub get_system_rlimit_flags : ResourceLimits → Map ℕ ℕ
unfolding flag
get_system_rlimit_flags r = flag 14 r.rtprio (
    flag 13 r.nice (
      flag 12 r.msgqueue (
        flag 11 r.sigpending (
          flag 10 r.locks (
            flag 9 r.address_space (
              flag 8 r.memlock (
                flag 7 r.nofile (
                  flag 6 r.nproc (
                    flag 5 r.rss (
                      flag 4 r.core (
                        flag 3 r.stack
                          (flag 2 r.data_size (flag 1 r.fsize (flag 0 r.cpu []))))))))))))))
