-- ===== src/Rlimits/Tests.antt =====
-- Limits as a line, and its theorem at concrete ones.
use garden_linux.Common.{◌≡◌, refl, [], ◌∷◌, none, some, arith, codes, text_eq, nat_eq}
use garden_linux.Rlimits.{
  ResourceLimits, fields, encode_limits, decode_limits, set_rlimits_env, get_system_rlimit_flags,
  entries, entry, join,
}
use garden_linux.Rlimits.RoundTrip.{AreUint64, decode_limits-encode_limits}
use garden_linux.Common.Map
use garden_linux.Common.Map.{Map}
use garden_linux.Common.Decimal.{decimal}

abbrev unlimited : ResourceLimits
unlimited = record {
  address_space = none;
  core = none;
  cpu = none;
  data_size = none;
  fsize = none;
  locks = none;
  memlock = none;
  msgqueue = none;
  nice = none;
  nofile = none;
  nproc = none;
  rss = none;
  rtprio = none;
  sigpending = none;
  stack = none;
}

abbrev limits : ResourceLimits
limits = record unlimited { core = some 0; nofile = some 1024 }

encoded : encode_limits limits ≡ codes "RLIMIT_CORE=0,RLIMIT_NOFILE=1024"
unfolding encode_limits entries entry fields join decimal
encoded = refl

decoded_blank :
    (decode_limits (codes "RLIMIT_CPU= 7 s,RLIMIT_AS=x")) ≡ record unlimited { cpu = some 7 }
unfolding decode_limits garden_linux.Rlimits.decode garden_linux.Rlimits.split
    garden_linux.Rlimits.decode_each garden_linux.Rlimits.sscanf garden_linux.Environment.split_n
    Map.lookup Map.insert
decoded_blank = refl

flags : get_system_rlimit_flags limits ≡ (4, 0) ∷ (7, 1024) ∷ []
unfolding get_system_rlimit_flags Map.insert
flags = refl

limits-AreUint64 : AreUint64 limits
unfolding AreUint64 fields
limits-AreUint64 = ground arith

decode_limits-encode_limits_example : decode_limits (encode_limits limits) ≡ limits
decode_limits-encode_limits_example = decode_limits-encode_limits limits limits-AreUint64
