-- ===== src/Backend/Traced.antt =====
-- The backend with a record of its calls of the pool's Acquire and Release.
use garden_linux.Common.{
  ℕ, ◌+◌, ◌≡◌, refl, false, List, [], ◌∷◌, none, some, length, Outcome, ok, err, panic, arith, Text,
  text_beq_iff, text_eq, nat_eq,
}
use garden_linux.Common.Map
use garden_linux.Common.Map.{Map, UniqueKeys}
use garden_linux.Repository.Latest.{IsIndexed}
use garden_linux.Backend.{Services, Repo}

-- An `Acquire` that succeeded with these resources, or a call of `Release` with them, whatever it
-- returned.
pub data Event (L : Type 0) : Type 0 where
  acquired released : L → Event L

abbrev pub acquisitions : {L : Type 0} → List (Event L) → ℕ
acquisitions [] = 0
acquisitions (acquired l ∷ log) = acquisitions log + 1
acquisitions (released l ∷ log) = acquisitions log

abbrev pub releases : {L : Type 0} → List (Event L) → ℕ
releases [] = 0
releases (acquired l ∷ log) = releases log
releases (released l ∷ log) = releases log + 1

-- A call that leaves the record as it is.
abbrev pub keep : {W A E : Type 0} → (W → W × A) → W × List E → (W × List E) × A
keep f (w, log) = (((f w).0, log), (f w).1)

abbrev pub note : {L : Type 0} → Outcome Text L → List (Event L) → List (Event L)
note (ok l) log = acquired l ∷ log
note (err e) log = log
note panic log = log

-- The same services, which also write the record, the latest event first.
abbrev pub traced : Services → Services
traced s = record {
  World = s.World × List (Event s.LinuxSpec);
  Container = s.Container;
  LinuxSpec = s.LinuxSpec;
  Request = s.Request;
  Disk = s.Disk;
  Bandwidth = s.Bandwidth;
  Info = s.Info;
  Metrics = s.Metrics;
  id = s.id;
  handle = s.handle;
  has_properties = λ m c w. s.has_properties m c w.0;
  resource_spec = λ c w. s.resource_spec c w.0;
  start_container = λ c. keep (s.start_container c);
  cleanup = λ c. keep (s.cleanup c);
  restore_container = λ l c. keep (s.restore_container l c);
  snapshot = λ path c. keep (s.snapshot path c);
  info = λ c w. s.info c w.0;
  metrics = λ c w. s.metrics c w.0;
  limit_cpu = λ n c. keep (s.limit_cpu n c);
  limit_disk = λ n c. keep (s.limit_disk n c);
  limit_bandwidth = λ n c. keep (s.limit_bandwidth n c);
  limit_memory = λ n c. keep (s.limit_memory n c);
  is_zero_disk = s.is_zero_disk;
  is_zero_bandwidth = s.is_zero_bandwidth;
  setup = keep s.setup;
  acquire = λ r w. (((s.acquire r w.0).0, note (s.acquire r w.0).1 w.1), (s.acquire r w.0).1);
  release = λ l w. (((s.release l w.0).0, released l ∷ w.1), (s.release l w.0).1);
  restore = λ content. keep (s.restore content);
  prune = λ ids. keep (s.prune ids);
  pool_max_containers = s.pool_max_containers;
  provide = λ l. keep (s.provide l);
  health_check = λ w. s.health_check w.0;
  total_memory = λ w. s.total_memory w.0;
  total_disk = λ w. s.total_disk w.0;
  stat = λ path w. s.stat path w.0;
  read_dir = λ path w. s.read_dir path w.0;
  open_file = λ path w. s.open_file path w.0;
  create_file = λ path. keep (s.create_file path);
  close_file = λ path. keep (s.close_file path);
  remove_all = λ path w. (s.remove_all path w.0, w.1);
  mkdir_all = λ path. keep (s.mkdir_all path);
}

-- Each handle has the container stored last under it, and as many acquisitions have not been given
-- back as there are stored containers.
unfoldable pub IsBalanced :
    (s : Services) → Repo (traced s) → s.World × List (Event s.LinuxSpec) → Type 0
IsBalanced s repo w = IsIndexed s.handle repo × (acquisitions w.1 ≡ releases w.1 + length repo)

pub length-insert_new :
    {C : Type 0} (h : Text) (c : C) (store : Map Text C)
    → Map.lookup h store ≡ none
    → length (Map.insert h c store) ≡ length store + 1
unfolding Map.insert Map.lookup
length-insert_new h c [] free = refl
length-insert_new h c ((k, x) ∷ store) free = ground (arith, length-insert_new h c store)

pub length-insert_old :
    {C : Type 0} (h : Text) (c old : C) (store : Map Text C)
    → Map.lookup h store ≡ some old
    → length (Map.insert h c store) ≡ length store
unfolding Map.insert Map.lookup
length-insert_old h c old [] found = absurd (cc)
length-insert_old h c old ((k, x) ∷ store) found = ground (arith, length-insert_old h c old store)

length-delete_absent :
    {C : Type 0} (h : Text) (store : Map Text C)
    → Map.has_key h store ≡ false
    → length (Map.delete h store) ≡ length store
unfolding Map.delete Map.has_key
length-delete_absent h [] free = refl
length-delete_absent h ((k, x) ∷ store) free = ground (arith, length-delete_absent h store)

pub length-delete_found :
    {C : Type 0} (h : Text) (c : C) (store : Map Text C)
    → UniqueKeys store
    → Map.lookup h store ≡ some c
    → length store ≡ length (Map.delete h store) + 1
unfolding Map.delete Map.lookup
length-delete_found h c [] u found = absurd (cc)
length-delete_found h c ((k, x) ∷ store) u found =
    ground (
      arith,
      text_beq_iff k h,
      u.0,
      length-delete_found h c store u.1,
      length-delete_absent h store,
    )
