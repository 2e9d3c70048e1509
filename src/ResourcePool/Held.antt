-- ===== src/ResourcePool/Held.antt =====
-- Loops over the ports of a container, and who holds which port then.
use garden_linux.Common.{
  ℕ, ◌+◌, ◌≤◌, ◌<◌, ◌≡◌, ◌≢◌, inl, inr, refl, sym, ap, List, [], ◌∷◌, ◌++◌, count, count-append, ok,
  err, panic, arith, text_eq, nat_eq, Outcome-cases,
}
use garden_linux.PortPool.{PortPool, PortError}
use garden_linux.PortPool as Ports
use garden_linux.PortPool.Ports.{contains-count, remove_cases}
use garden_linux.PortPool.Ownership.{IsShared, release-IsShared, remove-IsShared}
use garden_linux.ResourcePool.{release_ports}
use garden_linux.ResourcePool.Snapshots.{remove_ports}

-- The order of the held ports does not matter.
pub reorder-IsShared :
    (p : PortPool) (a b : List ℕ) → ((x : ℕ) → count x a ≡ count x b) → IsShared p a → IsShared p b
reorder-IsShared p a b same s = record {
  bounded = s.bounded;
  once = λ x. omega (arith, s.once x, same x);
}

-- The ports of a container that are released are held no more, and the others stay held.
pub release_ports-IsShared :
    (ports held : List ℕ) (p : PortPool)
    → IsShared p (ports ++ held)
    → IsShared (release_ports ports p) held
unfolding release_ports
release_ports-IsShared [] held p s = s
release_ports-IsShared (port ∷ ports) held p s =
    release_ports-IsShared ports held (Ports.release p port) (
      reorder-IsShared _ _ _ (λ x. ground arith) (release-IsShared p (port ∷ ports ++ held) port s))

-- Ports that are all taken back are held.
pub remove_ports-IsShared :
    (ports held : List ℕ) (p q : PortPool)
    → remove_ports ports p ≡ (q, ok tt)
    → IsShared p held
    → IsShared q (ports ++ held)
unfolding remove_ports
remove_ports-IsShared [] held p q e s = rw (sym (ap (λ r. r.0) e)) s
remove_ports-IsShared (port ∷ ports) held p q e s = elim (Outcome-cases (Ports.remove p port)) [
  | inl (r, done) ↦
      let rest =
        remove_ports-IsShared ports (port ∷ held) r q (rw (done, remove_ports) at e)
          (remove-IsShared p r held port done s).0 in
      reorder-IsShared q _ _
        (λ x. ground (arith, count-append x ports (port ∷ held), count-append x ports held)) rest
  | inr (inl (x, failed)) ↦ absurd (ground (arith, rw (failed, remove_ports) at e))
  | inr (inr stuck) ↦ absurd (ground (arith, rw (stuck, remove_ports) at e))
]

-- A port of the range is free after it was released.
release-free :
    (p : PortPool) (port : ℕ)
    → p.start + p.size ≤ 65535
    → p.start ≤ port
    → port < p.start + p.size
    → 0 < count port (Ports.release p port).pool
unfolding Ports.release
release-free p port b l h =
    ground (arith, contains-count port p.pool, count-append port p.pool (port ∷ []))

release-more :
    (p : PortPool) (port x : ℕ) → 0 < count x p.pool → 0 < count x (Ports.release p port).pool
unfolding Ports.release
release-more p port x h = ground (arith, count-append x p.pool (port ∷ []))

release_ports-more :
    (ports : List ℕ) (p : PortPool) (x : ℕ)
    → 0 < count x p.pool
    → 0 < count x (release_ports ports p).pool
unfolding release_ports
release_ports-more [] p x h = h
release_ports-more (port ∷ ports) p x h =
    release_ports-more ports (Ports.release p port) x (release-more p port x h)

pub release_ports-free :
    (port : ℕ) (ports : List ℕ) (p : PortPool)
    → p.start + p.size ≤ 65535
    → p.start ≤ port
    → port < p.start + p.size
    → 0 < count port (release_ports (port ∷ ports) p).pool
unfolding release_ports
release_ports-free port ports p b l h =
    release_ports-more ports (Ports.release p port) port (release-free p port b l h)

-- The loop over the ports ends without a panic, and stops at a port that cannot be taken.
pub remove_ports_total : (ports : List ℕ) (p : PortPool) → (remove_ports ports p).1 ≢ panic
unfolding remove_ports
remove_ports_total [] p = λ e. cc
remove_ports_total (port ∷ ports) p = elim (remove_cases p port) [
  | inl (_, failed) ↦ rw (failed, remove_ports) (λ e. cc)
  | inr (q, done, _, _, _) ↦ rw (done, remove_ports) (remove_ports_total ports q)
]

pub remove_ports-stops :
    (port : ℕ) (ports : List ℕ) (p : PortPool) (e : PortError)
    → Ports.remove p port ≡ err e
    → remove_ports (port ∷ ports) p ≡ (p, err e)
unfolding remove_ports
remove_ports-stops port ports p e h = rw (h, remove_ports) refl
