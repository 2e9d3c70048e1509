-- ===== src/ResourcePool/Undo.antt =====
-- What the pools hold after resources were acquired and released.
use garden_linux.Common.{
  ℕ, ◌≡◌, ◌⊎◌, inl, inr, refl, Bool, [], Option, some, ok, err, arith, Bool-cases, Option-cases,
  Text, text_beq, text_eq, nat_eq, Outcome-cases,
}
use garden_linux.Subnets.Address.{IpNet}
use garden_linux.Subnets.Address.Range.{IsNet}
use garden_linux.Subnets.Selectors.{SubnetSelector, IpSelector, static_subnet, dynamic_subnet}
use garden_linux.Subnets.Pool.{Network, Pool}
use garden_linux.Subnets.Pool as Subnets
use garden_linux.Subnets.Pool.Separate.{total}
use garden_linux.Subnets.Pool.Selected.{IsValid, IsSelector}
use garden_linux.Subnets.Pool.Remove.{release-acquire}
use garden_linux.ResourcePool.{
  Resources, Pools, PoolError, release_ports, release_network, release_pool_resources,
  acquire_pool_resources, parse_network_spec, acquire_network, suffix_if_needed,
}

-- What Go documents of `net.ParseCIDR`: the network that it returns is masked.
abbrev pub IsParser : (Text → Option (ℕ × IpNet)) → Type 0
IsParser parse = (t : Text) (ip : ℕ) (n : IpNet) → parse t ≡ some (ip, n) → IsNet n

parsed_cases :
    (parse : Text → Option (ℕ × IpNet)) (spec : Text) (sn : SubnetSelector) (i : IpSelector)
    → parse_network_spec parse spec ≡ ok (sn, i)
    → (sn ≡ dynamic_subnet)
      ⊎ ((ip : ℕ) × (n : IpNet) × (parse (suffix_if_needed spec) ≡ some (ip, n))
          × (sn ≡ static_subnet n))
unfolding parse_network_spec
parsed_cases parse spec sn i e = elim (Option-cases (parse (suffix_if_needed spec))) [
  | inl bad ↦ inl (ground arith)
  | inr ((ip, n), found) ↦ elim (Bool-cases (text_beq spec [])) [
    | inl empty ↦ inl (ground arith)
    | inr given ↦ inr (ip, n, found, ground arith)
  ]
]

parsed-IsSelector :
    (parse : Text → Option (ℕ × IpNet)) (spec : Text) (sn : SubnetSelector) (i : IpSelector)
    → IsParser parse
    → parse_network_spec parse spec ≡ ok (sn, i)
    → IsSelector sn
parsed-IsSelector parse spec sn i p e = elim (parsed_cases parse spec sn i e) [
  | inl same ↦ rw same tt
  | inr (ip, n, found, same) ↦ rw same (p _ ip n found)
]

acquired_parts :
    (parse : Text → Option (ℕ × IpNet)) (root ip : ℕ) (spec : Text) (privileged : Bool)
    (p q : Pools) (r : Resources)
    → acquire_pool_resources parse root ip spec privileged p ≡ (q, ok r)
    → (sn : SubnetSelector) × (i : IpSelector) × (network : Network) × (subnets : Pool)
      × (parse_network_spec parse spec ≡ ok (sn, i))
      × (Subnets.acquire p.subnets sn i ≡ ok (network, subnets))
      × (q ≡ record p { subnets = subnets })
      × (r.network ≡ some network)
      × (r.ports ≡ [])
unfolding acquire_pool_resources acquire_network
acquired_parts parse root ip spec privileged p q r e =
    elim (Outcome-cases (parse_network_spec parse spec)) [
      | inr (inl (x, failed)) ↦ absurd (ground arith)
      | inr (inr stuck) ↦ absurd (ground arith)
      | inl ((sn, i), parsed) ↦ elim (Outcome-cases (Subnets.acquire p.subnets sn i)) [
        | inl ((network, subnets), done) ↦
            (sn, i, network, subnets, parsed, done, ground arith, ground arith, ground arith)
        | inr (inl (x, failed)) ↦ absurd (ground arith)
        | inr (inr stuck) ↦ absurd (ground arith)
      ]
    ]

pub release_network-ok :
    (p u : Pool) (n : Network) → Subnets.release p n ≡ ok u → release_network (some n) p ≡ u
unfolding release_network
release_network-ok p u n e = rw (e, release_network)

-- What the release of resources without ports leaves.
release_given :
    (p : Pools) (q u : Pool) (r : Resources) (n : Network)
    → r.network ≡ some n
    → r.ports ≡ []
    → Subnets.release q n ≡ ok u
    → release_pool_resources r (record p { subnets = q }) ≡ record p { subnets = u }
unfolding release_pool_resources release_ports
release_given p q u r n net ports e = ground (arith, release_network-ok q u n e)

-- Resources that were acquired and are released leave the pools as they were: the subnet pool is
-- valid and every address is allocated as often as before, and ports and bridges are untouched;
-- for a valid subnet pool and a parser that returns masked networks.
pub release-acquire_pool_resources :
    (parse : Text → Option (ℕ × IpNet)) (root ip : ℕ) (spec : Text) (privileged : Bool)
    (p q : Pools) (r : Resources)
    → IsParser parse
    → IsValid p.subnets
    → acquire_pool_resources parse root ip spec privileged p ≡ (q, ok r)
    → let u = release_pool_resources r q in
      IsValid u.subnets
      × ((x : ℕ) → total x u.subnets.allocated ≡ total x p.subnets.allocated)
      × (u.ports ≡ p.ports)
      × (u.bridges ≡ p.bridges)
release-acquire_pool_resources parse root ip spec privileged p q r is v e =
    let (sn, i, network, subnets, parsed, done, is_q, net, ports) =
      acquired_parts parse root ip spec privileged p q r e in
    let (u, freed, vu, same) =
      release-acquire p.subnets subnets sn i network v (parsed-IsSelector parse spec sn i is parsed)
        done in
    let left : release_pool_resources r q ≡ record p { subnets = u } =
      rw is_q (release_given p subnets u r network net ports freed) in
    rw left (vu, same, refl, refl)

-- When the resources cannot be acquired, the pools are as before.
pub acquire_pool_resources_fails :
    (parse : Text → Option (ℕ × IpNet)) (root ip : ℕ) (spec : Text) (privileged : Bool)
    (p q : Pools) (e : PoolError)
    → acquire_pool_resources parse root ip spec privileged p ≡ (q, err e)
    → q ≡ p
unfolding acquire_pool_resources acquire_network release_pool_resources release_ports
    release_network
acquire_pool_resources_fails parse root ip spec privileged p q e h = ground arith
