-- ===== src/Yarn/Linux.antt =====
-- YarnBackend.go over the backend of linux_backend/linux_backend.go, which is how main.go puts them
-- together.
use garden_linux.Common.{
  ℕ, ◌<◌, ◌≡◌, refl, sym, ap, ◌∙◌, Bool, true, false, ◌&&◌, ◌||◌, List, [], ◌∷◌, Option, none, some,
  if◌then◌else◌, ltb, Outcome, ok, err, panic, Text, text_beq, text_eq, nat_eq,
}
use mathlib.Core.Option
use garden_linux.Common.Map.{Map, has_key, has_key-lookup, lookup}
use garden_linux.Repository.{find_by_handle}
use garden_linux.Repository.Latest.{Op, run}
use garden_linux.Backend.{Services, Repo, Settings, BackendError, ContainerSpec}
use garden_linux.Backend
use garden_linux.Backend.Restoring
use garden_linux.Backend.Bulk
use garden_linux.Backend.Bulk.{among, bulk-find_by_handle}
use garden_linux.Yarn.Nide.{LimitTypes, YarnContainer, Info, Metrics, nm_handler, info}
use garden_linux.Yarn.Server.{RealBackend, YarnBackend, bulk_info, current}
use garden_linux.Yarn.Handles.{occurs, text_beq-sym, ltb-one_if}
use garden_linux.Yarn.Bulk.{bulk_info-handles, ok-injective}

-- The error of a call, if it has one.
abbrev error_of : {A : Type 0} → Outcome BackendError A → Option BackendError
error_of (ok a) = none
error_of (err e) = some e
error_of panic = none

some_if :
    {A B : Type 0} (asked : Bool) (o : Option A) (f : A → B)
    → (elim (if asked then Option.map f o else none) [ none ↦ false | some v ↦ true ])
      ≡ ((elim o [ none ↦ false | some c ↦ true ]) && asked)
some_if true none f = refl
some_if true (some c) f = refl
some_if false none f = refl
some_if false (some c) f = refl

abbrev pub is_known : {C : Type 0} → Text → Map Text C → Bool
is_known h repo = elim (find_by_handle h repo) [ none ↦ false | some c ↦ true ]

among-occurs : (h : Text) (hs : List Text) → among h hs ≡ ltb 0 (occurs h hs)
unfolding among
among-occurs h [] = refl
among-occurs h (x ∷ hs) =
    ap (λ b. b || among h hs) (text_beq-sym x h)
    ∙ ap (λ b. text_beq h x || b) (among-occurs h hs)
    ∙ sym (ltb-one_if (text_beq h x) (occurs h hs))

module _ (s : Services) (settings : Settings) (rootfs_path : ContainerSpec s → Text)
    (info_entry : Info → s.Info) (made_up_entry : Metrics → s.Metrics)
    (grace_time : s.Container → s.World → ℕ) where
  -- The `LinuxBackend` as a `garden.Backend`; its state is its repository and the world.
  abbrev pub linux : RealBackend
  linux = record {
    State = Repo s × s.World;
    Error = BackendError;
    Container = s.Container;
    Spec = ContainerSpec s;
    Capacity = ℕ × ℕ × ℕ;
    InfoEntry = Outcome Text s.Info;
    MetricsEntry = Outcome Text s.Metrics;
    rootfs_path = rootfs_path;
    info_entry = λ i. ok (info_entry i);
    metrics_entry = λ m. ok (made_up_entry m);
    start = λ (repo, w).
        let (repo', w', result) = Restoring.start s settings repo w in
        ((repo', w'), error_of result);
    stop = λ (repo, w). (repo, Restoring.stop s settings repo w);
    grace_time = λ c (repo, w). grace_time c w;
    ping = λ (repo, w). error_of (Backend.ping s w);
    capacity = λ (repo, w). Backend.capacity s settings w;
    create = λ spec (repo, w).
        let (repo', w', result) = Backend.create s settings spec repo w in ((repo', w'), result);
    destroy = λ handle (repo, w).
        let (repo', w', result) = Backend.destroy s handle repo w in ((repo', w'), error_of result);
    containers = λ props (repo, w). ok (Backend.containers s props repo w);
    bulk_info = λ handles (repo, w). ok (Bulk.bulk_info s handles repo w);
    bulk_metrics = λ handles (repo, w). ok (Bulk.bulk_metrics s handles repo w);
    lookup = λ handle (repo, w). Backend.lookup s handle repo;
  }

  -- A key of the answer is a handle that was asked for and that the repository has.
  bulk_info-known :
      (ops : List (Op s.Container)) (w : s.World) (hs : List Text) (h : Text)
      → has_key h (Bulk.bulk_info s hs (run s.handle ops []) w)
        ≡ (is_known h (run s.handle ops []) && ltb 0 (occurs h hs))
  bulk_info-known ops w hs h =
      has_key-lookup h (Bulk.bulk_info s hs (run s.handle ops []) w)
      ∙ rw ((bulk-find_by_handle s ops hs h w).0)
          (some_if (among h hs) (find_by_handle h (run s.handle ops [])) (λ c. s.info c w))
      ∙ ap (λ b. is_known h (run s.handle ops []) && b) (among-occurs h hs)

  module _ {l : LimitTypes} where
    -- Over a Linux backend whose repository came about by any sequence of `Add` and `Delete`,
    -- `YarnBackend.BulkInfo`, when it succeeds, has an entry for each handle asked for that the
    -- repository has, one for the nide manager if it was asked for, and no other; and the entry of
    -- the nide manager is what its own container says of itself.
    pub bulk_info-linux :
        (ops : List (Op s.Container)) (b : YarnBackend linux l) (handles : List Text)
        (m : Map Text (Outcome Text s.Info))
        → let repo = run s.handle ops [] in
          b.real_backend.0 ≡ repo
          → bulk_info handles b ≡ ok m
          → ((h : Text)
              → has_key h m
                ≡ ((is_known h repo || text_beq h nm_handler) && ltb 0 (occurs h handles)))
            × ((c : YarnContainer l)
                → current b ≡ some c
                → 0 < occurs nm_handler handles
                → lookup nm_handler m ≡ some (ok (info_entry (info c))))
    bulk_info-linux ops b handles m held h =
        bulk_info-handles (λ k. is_known k (run s.handle ops [])) handles b m
          (λ hs entries answered k.
            ap (has_key k) (ok-injective (sym answered))
            ∙ rw held (bulk_info-known ops b.real_backend.1 hs k))
          h
