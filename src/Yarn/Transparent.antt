-- ===== src/Yarn/Transparent.antt =====
-- A client that never names the nide manager cannot tell YarnBackend.go from the backend that it
-- wraps.
use garden_linux.Common.{
  ℕ, ◌≡◌, refl, ap, false, List, [], ◌∷◌, Option, none, some, All, Outcome, ok, err, panic, ◌>>=◌,
  Text, codes, text_beq, text_eq, nat_eq,
}
use garden_linux.Common.Map.{Map}
use garden_linux.Bridges.{has_prefix}
use garden_linux.Yarn.Nide.{LimitTypes, nm_handler}
use garden_linux.Yarn.Server.{
  RealBackend, YarnBackend, AnyContainer, nide, real, start, stop, ping, capacity, grace_time,
  create, destroy, containers, bulk_info, bulk_metrics, lookup_container,
}
use garden_linux.Yarn.Handles.{occurs, remove_handle-kept}

-- The calls of `garden.Backend` that a client makes.
pub data Call (r : RealBackend) : Type 0 where
  starts stops pings asks_capacity : Call r
  creates : r.Spec → Call r
  destroys looks_up : Text → Call r
  lists : Map Text Text → Call r
  informs measures : List Text → Call r
  asks_grace : r.Container → Call r

pub data Reply (r : RealBackend) : Type 0 where
  silent : Reply r
  problem : Option r.Error → Reply r
  gave : Outcome r.Error r.Capacity → Reply r
  container : Outcome r.Error r.Container → Reply r
  listed : Outcome r.Error (List r.Container) → Reply r
  informed : Outcome r.Error (Map Text r.InfoEntry) → Reply r
  measured : Outcome r.Error (Map Text r.MetricsEntry) → Reply r
  seconds : ℕ → Reply r
  -- a container of the nide manager, or a call that panics
  other : Reply r

>>=-ok {ℓ κ} : {E : Type ℓ} {A : Type κ} (o : Outcome E A) → (o >>= λ a. ok a) ≡ o
>>=-ok (ok a) = refl
>>=-ok (err e) = refl
>>=-ok panic = refl

module _ {r : RealBackend} where
  abbrev pub serve_real : Call r → r.State → r.State × Reply r
  serve_real starts s = let (t, e) = r.start s in (t, problem e)
  serve_real stops s = (r.stop s, silent)
  serve_real pings s = (s, problem (r.ping s))
  serve_real asks_capacity s = (s, gave (r.capacity s))
  serve_real (creates spec) s = let (t, c) = r.create spec s in (t, container c)
  serve_real (destroys h) s = let (t, e) = r.destroy h s in (t, problem e)
  serve_real (looks_up h) s = (s, container (r.lookup h s))
  serve_real (lists p) s = (s, listed (r.containers p s))
  serve_real (informs hs) s = (s, informed (r.bulk_info hs s))
  serve_real (measures hs) s = (s, measured (r.bulk_metrics hs s))
  serve_real (asks_grace c) s = (s, seconds (r.grace_time c s))

  abbrev pub serve_all_real : List (Call r) → r.State → r.State × List (Reply r)
  serve_all_real [] s = (s, [])
  serve_all_real (call ∷ calls) s =
      let (t, reply) = serve_real call s in
      let (u, replies) = serve_all_real calls t in (u, reply ∷ replies)

  abbrev container_reply : Outcome r.Error (AnyContainer r.Container) → Reply r
  container_reply (ok (real c)) = container (ok c)
  container_reply (ok (nide _)) = other
  container_reply (err e) = container (err e)
  container_reply panic = container panic

  abbrev destroy_reply : Outcome r.Error (Unit {0}) → Reply r
  destroy_reply (ok _) = problem none
  destroy_reply (err e) = problem (some e)
  destroy_reply panic = other

  abbrev seconds_reply : Option ℕ → Reply r
  seconds_reply none = other
  seconds_reply (some n) = seconds n

  -- The call does not name the nide manager.
  abbrev pub IsForeign : Call r → Type 0
  IsForeign (creates spec) = has_prefix (r.rootfs_path spec) (codes "yarn://nodemanager") ≡ false
  IsForeign (destroys h) = text_beq h nm_handler ≡ false
  IsForeign (looks_up h) = text_beq h nm_handler ≡ false
  IsForeign (informs hs) = occurs nm_handler hs ≡ 0
  IsForeign (measures hs) = occurs nm_handler hs ≡ 0
  IsForeign _ = Unit {0}

  lookup_reply :
      (o : Outcome r.Error r.Container) → container_reply (o >>= λ c. ok (real c)) ≡ container o
  lookup_reply (ok c) = refl
  lookup_reply (err e) = refl
  lookup_reply panic = refl

  module _ {l : LimitTypes} where
    abbrev replying :
        YarnBackend r l × Outcome r.Error (AnyContainer r.Container) → YarnBackend r l × Reply r
    replying (b, o) = (b, container_reply o)

    abbrev answering : YarnBackend r l × Outcome r.Error (Unit {0}) → YarnBackend r l × Reply r
    answering (b, o) = (b, destroy_reply o)

    abbrev pub serve : Call r → YarnBackend r l → YarnBackend r l × Reply r
    serve starts b = let (c, e) = start b in (c, problem e)
    serve stops b = (stop b, silent)
    serve pings b = (b, problem (ping b))
    serve asks_capacity b = (b, gave (capacity b))
    serve (creates spec) b = replying (create spec b)
    serve (destroys h) b = answering (destroy h b)
    serve (looks_up h) b = (b, container_reply (lookup_container h b))
    serve (lists p) b = (b, listed (containers p b))
    serve (informs hs) b = (b, informed (bulk_info hs b))
    serve (measures hs) b = (b, measured (bulk_metrics hs b))
    serve (asks_grace c) b = (b, seconds_reply (grace_time (real c) b))

    -- The wrapped backend has moved on, and nothing else has.
    abbrev pub with_real : YarnBackend r l → r.State → YarnBackend r l
    with_real b s = record b { real_backend = s }

    destroy_answer :
        (b : YarnBackend r l) (o : Option r.Error)
        → answering (elim o [ none ↦ (b, ok (record {})) | some e ↦ (b, err e) ]) ≡ (b, problem o)
    destroy_answer b none = refl
    destroy_answer b (some e) = refl

    create_reply :
        (b : YarnBackend r l) (o : Outcome r.Error r.Container)
        → replying (elim o [ ok c ↦ (b, ok (real c)) | err e ↦ (b, err e) | panic ↦ (b, panic) ])
          ≡ (b, container o)
    create_reply b (ok c) = refl
    create_reply b (err e) = refl
    create_reply b panic = refl

    serve-foreign :
        (call : Call r) (b : YarnBackend r l)
        → IsForeign call
        → serve call b ≡ (let (s, reply) = serve_real call b.real_backend in (with_real b s, reply))
    unfolding create destroy lookup_container bulk_info bulk_metrics start stop ping capacity
        grace_time containers
    serve-foreign starts b foreign = refl
    serve-foreign stops b foreign = refl
    serve-foreign pings b foreign = refl
    serve-foreign asks_capacity b foreign = refl
    serve-foreign (creates spec) b foreign = rw foreign (
        create_reply (with_real b (r.create spec b.real_backend).0)
          (r.create spec b.real_backend).1)
    serve-foreign (destroys h) b foreign =
        rw foreign (
          destroy_answer (with_real b (r.destroy h b.real_backend).0)
            (r.destroy h b.real_backend).1)
    serve-foreign (looks_up h) b foreign =
        rw foreign (ap (λ y. (b, y)) (lookup_reply (r.lookup h b.real_backend)))
    serve-foreign (lists p) b foreign = refl
    serve-foreign (informs hs) b foreign =
        rw (remove_handle-kept hs foreign)
          (ap (λ o. (b, informed o)) (>>=-ok (r.bulk_info hs b.real_backend)))
    serve-foreign (measures hs) b foreign =
        rw (remove_handle-kept hs foreign)
          (ap (λ o. (b, measured o)) (>>=-ok (r.bulk_metrics hs b.real_backend)))
    serve-foreign (asks_grace c) b foreign = refl

    abbrev pub serve_all : List (Call r) → YarnBackend r l → YarnBackend r l × List (Reply r)
    serve_all [] b = (b, [])
    serve_all (call ∷ calls) b =
        let (c, reply) = serve call b in
        let (d, replies) = serve_all calls c in (d, reply ∷ replies)

    -- Any sequence of calls on `YarnBackend` in which no handle and no root file system is that of
    -- the nide manager gives the replies that the wrapped backend gives to the same calls, leaves
    -- that backend in the same state and the nide manager as it was.
    pub serve_all-foreign :
        (calls : List (Call r)) (b : YarnBackend r l)
        → All IsForeign calls
        → serve_all calls b
          ≡ (let (s, replies) = serve_all_real calls b.real_backend in (with_real b s, replies))
    serve_all-foreign [] b foreign = refl
    serve_all-foreign (call ∷ calls) b (first, others) = rw (serve-foreign call b first) (
        ap (λ x. (x.0, (serve_real call b.real_backend).1 ∷ x.1))
          (serve_all-foreign calls (with_real b (serve_real call b.real_backend).0) others))
