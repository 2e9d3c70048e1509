-- ===== src/Container/Usage.antt =====
-- The bounds of what the cgroup files of memory say.
use garden_linux.Common.{
  ℕ, ◌+◌, ◌-◌, ◌*◌, ◌%◌, ◌^◌, ◌<◌, ◌≡◌, ◌≢◌, inl, inr, List, [], ◌∷◌, some, arith, Option-cases,
  Text, codes, text_eq, nat_eq,
}
use garden_linux.Common.Map
use garden_linux.Common.Map.{Map}
use garden_linux.Common.Decimal.{parse_uint, read_digits}
use garden_linux.Container.Metrics.{
  words_after, read_fields, field_of, toward_limit, parse_memory_stat,
}

read_digits-bound :
    (value : ℕ) (s : Text) (n : ℕ) → value < 2 ^ 64 → read_digits value s ≡ some n → n < 2 ^ 64
unfolding read_digits
read_digits-bound value [] n h e = ground arith
read_digits-bound value (c ∷ s) n h e =
    ground (arith, read_digits-bound (value * 10 + (c - 48)) s n)

parse_uint-bound : (s : Text) (n : ℕ) → parse_uint s ≡ some n → n < 2 ^ 64
unfolding parse_uint
parse_uint-bound [] n e = absurd (cc (e))
parse_uint-bound (c ∷ s) n e = read_digits-bound 0 (c ∷ s) n (omega arith) e

AreUint64 : Map Text ℕ → Type 0
AreUint64 stat = (name : Text) (n : ℕ) → Map.lookup name stat ≡ some n → n < 2 ^ 64

no_field : (name : Text) (n : ℕ) → Map.lookup name [] ≢ some n
unfolding Map.lookup
no_field name n e = cc (e)

read_fields-AreUint64 :
    (ws : List Text) (stat : Map Text ℕ) → AreUint64 stat → AreUint64 (read_fields ws stat)
unfolding read_fields AreUint64
read_fields-AreUint64 [] stat b = b
read_fields-AreUint64 (field ∷ []) stat b = b
read_fields-AreUint64 (field ∷ value ∷ rest) stat b = elim (Option-cases (parse_uint value)) [
  | inl bad ↦ rw (read_fields, bad) (read_fields-AreUint64 rest stat b)
  | inr (n, good) ↦
      rw (read_fields, good)
        (read_fields-AreUint64 rest (Map.insert field n stat) (λ name m e.
          ground
            (arith, Map.lookup-insert field name n stat, b name m, parse_uint-bound value n, good)))
]

field_of-bound : (name : Text) (stat : Map Text ℕ) → AreUint64 stat → field_of name stat < 2 ^ 64
unfolding field_of AreUint64
field_of-bound name stat b = elim (Option-cases (Map.lookup name stat)) [
  | inl missing ↦ rw (field_of, missing) (omega arith)
  | inr (n, found) ↦ rw (field_of, found) (b name n found)
]

-- The usage toward the limit plus the inactive file memory is the resident memory plus the cache,
-- modulo 2 ^ 64.
pub parse_memory_stat-toward_limit :
    (contents : Text)
    → let s = parse_memory_stat contents in
      ((s.total_usage_toward_limit + s.total_inactive_file) % 2 ^ 64
        ≡ (s.total_rss + s.total_cache) % 2 ^ 64)
      × (s.total_usage_toward_limit < 2 ^ 64)
unfolding parse_memory_stat toward_limit AreUint64
parse_memory_stat-toward_limit contents =
    let stat = read_fields (words_after [] contents) [] in
    let bounded =
      read_fields-AreUint64 (words_after [] contents) [] (λ name n e. absurd (no_field name n e)) in
    let rss = field_of-bound (codes "total_rss") stat bounded in
    let cache = field_of-bound (codes "total_cache") stat bounded in
    let inactive = field_of-bound (codes "total_inactive_file") stat bounded in
    (omega arith, omega arith)
