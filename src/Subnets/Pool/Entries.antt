-- ===== src/Subnets/Pool/Entries.antt =====
-- The entries of the pool: lists of addresses, and the map as a whole.
use garden_linux.Common.{
  ℕ, zero, suc, ◌+◌, ◌-◌, ◌<◌, ◌≡◌, refl, List, [], ◌∷◌, none, some, true, ◌==◌, if◌then◌else◌, leb,
  length, length-set, length-take, ap, ◌↔◌, take, set, count, arith,
}
use garden_linux.Subnets.Selectors.{ip_exists}
use garden_linux.Subnets.Pool.{has_ip, index_of, get_or_zero, remove_ip_at_index}

pub has_ip-count : (ip : ℕ) (ips : List ℕ) → has_ip ip ips ≡ leb 1 (count ip ips)
unfolding has_ip
has_ip-count ip [] = refl
has_ip-count ip (e ∷ es) = ground (arith, has_ip-count ip es)

pub ip_exists-count : (ip : ℕ) (ips : List ℕ) → ip_exists ip ips ≡ leb 1 (count ip ips)
unfolding ip_exists
ip_exists-count ip [] = refl
ip_exists-count ip (e ∷ es) = ground (arith, ip_exists-count ip es)

pub index_of-none : (ips : List ℕ) (w : ℕ) → index_of ips w ≡ none → count w ips ≡ 0
unfolding index_of
index_of-none [] w e = refl
index_of-none (v ∷ a) w e = ground (arith, index_of-none a w)

pub index_of-count : (ips : List ℕ) (w i : ℕ) → index_of ips w ≡ some i → 0 < count w ips
unfolding index_of
index_of-count [] w i e = absurd (cc)
index_of-count (v ∷ a) w zero e = ground arith
index_of-count (v ∷ a) w (suc i) e = ground (arith, index_of-count a w i)

pub index_of-some :
    (ips : List ℕ) (w i : ℕ) → index_of ips w ≡ some i → (i < length ips) × (get_or_zero ips i ≡ w)
unfolding index_of get_or_zero
index_of-some [] w i e = absurd (cc)
index_of-some (v ∷ a) w zero e = ground arith
index_of-some (v ∷ a) w (suc i) e = ground (arith, index_of-some a w i)

count-set :
    (ips : List ℕ) (i v x : ℕ)
    → i < length ips
    → count x (set ips i v) + (if get_or_zero ips i == x then 1 else 0)
      ≡ count x ips + (if v == x then 1 else 0)
unfolding get_or_zero
count-set [] i v x h = absurd (omega arith)
count-set (y ∷ ips) zero v x h = ground arith
count-set (y ∷ ips) (suc i) v x h = ground (arith, count-set ips i v x)

count-take :
    (ips : List ℕ) (x n : ℕ)
    → length ips ≡ suc n
    → count x (take n ips) + (if get_or_zero ips n == x then 1 else 0) ≡ count x ips
unfolding get_or_zero
count-take [] x n h = absurd (omega arith)
count-take (y ∷ []) x zero h = ground arith
count-take (y ∷ z ∷ ips) x zero h = absurd (omega arith)
count-take (y ∷ ips) x (suc n) h = ground (arith, count-take ips x n)

get_or_zero-set :
    (ips : List ℕ) (i v n : ℕ)
    → get_or_zero (set ips i v) n
      ≡ (if i == n then (if leb (length ips) n then 0 else v) else get_or_zero ips n)
unfolding get_or_zero
get_or_zero-set [] i v n = ground arith
get_or_zero-set (y ∷ ips) zero v zero = ground arith
get_or_zero-set (y ∷ ips) zero v (suc n) = ground arith
get_or_zero-set (y ∷ ips) (suc i) v zero = ground arith
get_or_zero-set (y ∷ ips) (suc i) v (suc n) = ground (arith, get_or_zero-set ips i v n)

-- One occurrence of the entry at the index goes, whatever the order of the rest becomes.
pub count-remove_ip_at_index :
    (ips : List ℕ) (i w x : ℕ)
    → i < length ips
    → get_or_zero ips i ≡ w
    → count x (remove_ip_at_index ips i).0 + (if w == x then 1 else 0) ≡ count x ips
unfolding remove_ip_at_index
count-remove_ip_at_index ips i w x h e =
    let last = get_or_zero ips (length ips - 1) in
    ground (
      arith,
      count-set ips i last x h,
      count-take (set ips i last) x (length ips - 1),
      length-set ips i last,
      get_or_zero-set ips i last (length ips - 1),
    )

-- The flag is set exactly if nothing is left.
pub remove_ip_at_index-empty :
    (ips : List ℕ) (i : ℕ)
    → i < length ips
    → ((remove_ip_at_index ips i).1 ≡ true) ↔ ((remove_ip_at_index ips i).0 ≡ [])
unfolding remove_ip_at_index
remove_ip_at_index-empty ips i h =
    let last = get_or_zero ips (length ips - 1) in
    let n = length-take (length ips - 1) (set ips i last) (omega (arith, length-set ips i last)) in
    (λ e. length-zero _ (ground arith), λ e. ground (arith, ap length e))
  where
    length-zero : (xs : List ℕ) → length xs ≡ 0 → xs ≡ []
    length-zero [] e = refl
    length-zero (x ∷ xs) e = absurd (omega arith)
