-- ===== src/Subnets/Pool/Selected.antt =====
-- A valid pool, and the subnet that a selector finds for it.
use garden_linux.Common.{◌%◌, ◌≡◌, ◌≢◌, ◌⊎◌, inl, inr, [], ◌∷◌, map, All, ok, arith}
use garden_linux.Subnets.Address.{IpNet, size, net_eq}
use garden_linux.Subnets.Address.Range.{IsNet, Apart, size_30}
use garden_linux.Subnets.Selectors.{SubnetSelector, static_subnet, dynamic_subnet, select_subnet}
use garden_linux.Subnets.Selectors.Subnet.{
  OnGrid, IsRange, select_subnet-static, subnet_exists-All, select_subnet-dynamic,
}
use garden_linux.Subnets.Pool.{Pool, subnets}
use garden_linux.Subnets.Pool.Separate.{Allocated, Entries, EqualOrApart, Separate, subnets-keys}

pub record IsValid (p : Pool) : Type 0 where
  pub range : IsRange p.dynamic_range
  pub entries : Entries p.dynamic_range p.allocated
  pub separate : Separate p.allocated

-- A selector whose network, if it names one, is masked (as `net.ParseCIDR` returns it).
abbrev pub IsSelector : SubnetSelector → Type 0
IsSelector (static_subnet s) = IsNet s
IsSelector dynamic_subnet = Unit

-- What is known of the subnet that a selector returns.
pub record IsSelected (dynamic : IpNet) (m : Allocated) (s : IpNet) : Type 0 where
  pub net : IsNet s
  pub place : OnGrid dynamic s ⊎ Apart dynamic s
  pub others : EqualOrApart s m

All-nets : (dynamic : IpNet) (m : Allocated) → Entries dynamic m → All IsNet (map (λ e. e.0) m)
All-nets dynamic [] h = tt
All-nets dynamic ((k, v) ∷ m) h = (h.0.net, All-nets dynamic m h.1)

static_others :
    (s : IpNet) (m : Allocated)
    → All (λ e. (e ≡ s) ⊎ Apart s e) (map (λ e. e.0) m)
    → EqualOrApart s m
static_others s [] h = tt
static_others s ((k, v) ∷ m) h = (h.0, static_others s m h.1)

block-Apart :
    (dynamic s k : IpNet)
    → OnGrid dynamic s
    → s.ip % 4 ≡ 0
    → IsNet k
    → OnGrid dynamic k ⊎ Apart dynamic k
    → k ≢ s
    → Apart s k
block-Apart dynamic s k g al nk (inl gk) ne =
    let four : size k ≡ 4 = size_30 k gk.short in
    ground (arith, nk.aligned, four, size_30 s g.short, g.short, gk.short)
block-Apart dynamic s k g al nk (inr apart) ne = ground (arith, size_30 s g.short, g.above, g.below)

dynamic_others :
    (dynamic s : IpNet) (m : Allocated)
    → OnGrid dynamic s
    → s.ip % 4 ≡ 0
    → Entries dynamic m
    → All (λ e. e ≢ s) (map (λ e. e.0) m)
    → EqualOrApart s m
dynamic_others dynamic s [] g al en h = tt
dynamic_others dynamic s ((k, v) ∷ m) g al en h = (
  inr (block-Apart dynamic s k g al en.0.net en.0.place h.0),
  dynamic_others dynamic s m g al en.1 h.1,
)

pub select_subnet-IsSelected :
    (p : Pool) (sn : SubnetSelector) (s : IpNet)
    → IsValid p
    → IsSelector sn
    → select_subnet sn p.dynamic_range (subnets p.allocated) ≡ ok s
    → IsSelected p.dynamic_range p.allocated s
select_subnet-IsSelected p (static_subnet a) s v n e =
    let keys = subnets-keys p.dynamic_range p.allocated v.entries in
    let (same, place, others) =
      select_subnet-static a s p.dynamic_range (map (λ e. e.0) p.allocated) n v.range.net
        (All-nets p.dynamic_range p.allocated v.entries) (rw keys at e) in
    rw same (record { net = n; place = inr place; others = static_others a p.allocated others })
select_subnet-IsSelected p dynamic_subnet s v n e =
    let keys = subnets-keys p.dynamic_range p.allocated v.entries in
    let (al, grid, new) =
      (select_subnet-dynamic p.dynamic_range (subnets p.allocated) v.range).0 s e in
    record {
      net = record {
        aligned = ground (arith, size_30 s grid.short);
        fits = ground (arith, size_30 s grid.short, v.range.below_max, grid.below);
      };
      place = inl grid;
      others =
          dynamic_others p.dynamic_range s p.allocated grid al v.entries
            (subnet_exists-All s (map (λ e. e.0) p.allocated) (rw keys at new));
    }
