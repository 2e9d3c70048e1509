-- ===== src/Rlimits/RoundTrip.antt =====
-- The limits of a process come back from the line that they are sent as.
use garden_linux.Common.{
  ℕ, ◌^◌, ◌<◌, ◌≡◌, refl, ap, ◌∙◌, List, [], ◌∷◌, Option, none, some, count, All, arith, Text,
  codes, text_eq, nat_eq,
}
use garden_linux.Common.Map
use garden_linux.Common.Map.{Map}
use garden_linux.Rlimits.{
  ResourceLimits, fields, entries, encode_limits, decode, decode_each, split, join, decode_limits,
}
use garden_linux.Rlimits.Words.{
  IsEntry, words, words-commas, entries-words, insert_all, decode_each-words, split-join, assigned,
  lookup-insert_all,
}

abbrev FitsUint64 : Text × Option ℕ → Type 0
FitsUint64 f = (n : ℕ) → f.1 ≡ some n → n < 2 ^ 64

-- Every limit fits a uint64.
unfoldable pub AreUint64 : ResourceLimits → Type 0
AreUint64 r = All FitsUint64 (fields r)

abbrev HasPlainName : Text × Option ℕ → Type 0
HasPlainName f = (count 44 f.0 ≡ 0) × (count 61 f.0 ≡ 0)

All-IsEntry :
    (fs : List (Text × Option ℕ)) → All HasPlainName fs → All FitsUint64 fs → All IsEntry fs
unfolding IsEntry
All-IsEntry [] names fit = tt
All-IsEntry (f ∷ fs) names fit = ((names.0.0, names.0.1, fit.0), All-IsEntry fs names.1 fit.1)

fields-HasPlainName : (r : ResourceLimits) → All HasPlainName (fields r)
unfolding fields
fields-HasPlainName r = ground arith

fields-IsEntry : (r : ResourceLimits) → AreUint64 r → All IsEntry (fields r)
unfolding AreUint64
fields-IsEntry r v = All-IsEntry (fields r) (fields-HasPlainName r) v

decode-words :
    (ws : List Text) → All (λ (v : Text). count 44 v ≡ 0) ws → decode (join ws) ≡ decode_each ws []
unfolding decode join split decode_each garden_linux.Environment.split_n
decode-words [] h = refl
decode-words (w ∷ ws) h = ap (λ l. decode_each l []) (split-join w ws h)

decode-fields :
    (fs : List (Text × Option ℕ))
    → All IsEntry fs
    → decode (join (entries fs [])) ≡ insert_all fs []
decode-fields fs h =
    ap (λ ws. decode (join ws)) (entries-words fs [])
    ∙ decode-words (words fs) (words-commas fs h)
    ∙ decode_each-words fs [] h

same_limit : (limit : Option ℕ) → (elim limit [ none ↦ none | some n ↦ some n ]) ≡ limit
same_limit none = refl
same_limit (some n) = refl

lookup-decode :
    (r : ResourceLimits) (j : Text)
    → AreUint64 r
    → Map.lookup j (decode (encode_limits r)) ≡ assigned j (fields r) none
unfolding encode_limits Map.lookup
lookup-decode r j v =
    ap (Map.lookup j) (decode-fields (fields r) (fields-IsEntry r v))
    ∙ lookup-insert_all j (fields r) []

-- Limits that are encoded as a line of text and decoded again are the same, each of them and also
-- those that are not set, if each fits a uint64.
pub decode_limits-encode_limits :
    (r : ResourceLimits) → AreUint64 r → decode_limits (encode_limits r) ≡ r
unfolding decode_limits assigned fields
decode_limits-encode_limits r v =
    let kept =
      λ (j : Text) (limit : Option ℕ)
          (e : assigned j (fields r) none ≡ (elim limit [ none ↦ none | some n ↦ some n ])).
        lookup-decode r j v ∙ e ∙ same_limit limit in
    λ i. record {
      address_space = kept (codes "RLIMIT_AS") r.address_space refl i;
      core = kept (codes "RLIMIT_CORE") r.core refl i;
      cpu = kept (codes "RLIMIT_CPU") r.cpu refl i;
      data_size = kept (codes "RLIMIT_DATA") r.data_size refl i;
      fsize = kept (codes "RLIMIT_FSIZE") r.fsize refl i;
      locks = kept (codes "RLIMIT_LOCKS") r.locks refl i;
      memlock = kept (codes "RLIMIT_MEMLOCK") r.memlock refl i;
      msgqueue = kept (codes "RLIMIT_MSGQUEUE") r.msgqueue refl i;
      nice = kept (codes "RLIMIT_NICE") r.nice refl i;
      nofile = kept (codes "RLIMIT_NOFILE") r.nofile refl i;
      nproc = kept (codes "RLIMIT_NPROC") r.nproc refl i;
      rss = kept (codes "RLIMIT_RSS") r.rss refl i;
      rtprio = kept (codes "RLIMIT_RTPRIO") r.rtprio refl i;
      sigpending = kept (codes "RLIMIT_SIGPENDING") r.sigpending refl i;
      stack = kept (codes "RLIMIT_STACK") r.stack refl i;
    }
