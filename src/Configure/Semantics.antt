-- ===== src/Configure/Semantics.antt =====
-- What the calls on the devices do, as an interface: a view of the system, and how a call without an
-- error changes it.
use garden_linux.Common.{
  ℕ, ◌≡◌, ◌≢◌, inl, inr, refl, Bool, true, Option, none, some, if◌then◌else◌, ok, arith, Bool-cases,
  Text, text_eq, nat_eq, Eq,
}
use garden_linux.Subnets.Address.{IpNet}
use garden_linux.Configure.{Devices}

-- The parts of the network that the configurer sets.
pub record Net (Intf : Type 0) : Type 0 where
  pub up : Intf → Bool
  pub mtu : Intf → ℕ
  pub pid : Intf → Option ℕ
  pub master : Intf → Option Intf
  pub address : Intf → Option (ℕ × IpNet)
  pub gateway : Intf → Option ℕ
  pub hostname : Text

-- `f`, but `v` at i.
abbrev pub at {κ} : {I : Type 0} {V : Type κ} → Eq I → I → V → (I → V) → I → V
at e i v f j = if e.beq i j then v else f j

pub at-same {κ} :
    {I : Type 0} {V : Type κ} (e : Eq I) (i : I) (v : V) (f : I → V) → at e i v f i ≡ v
at-same e i v f = rw ((e.beq_iff i i).1 refl) refl

pub at-true : {I : Type 0} (e : Eq I) (i j : I) (f : I → Bool) → f j ≡ true → at e i true f j ≡ true
at-true e i j f h = ground (arith, h)

pub at-other {κ} :
    {I : Type 0} {V : Type κ} (e : Eq I) (i j : I) (v : V) (f : I → V) → i ≢ j → at e i v f j ≡ f j
at-other e i j v f ne = elim (Bool-cases (e.beq i j)) [
  | inl same ↦ absurd (ne ((e.beq_iff i j).0 same))
  | inr other ↦ rw other refl
]

pub record Semantics (d : Devices) : Type 1 where
  pub same : Eq d.Intf
  pub view : d.System → Net d.Intf
  pub set_up_law :
      (i : d.Intf) (s t : d.System)
      → d.set_up i s ≡ (t, none)
      → view t ≡ record (view s) { up = at same i true (view s).up }
  pub set_mtu_law :
      (i : d.Intf) (n : ℕ) (s t : d.System)
      → d.set_mtu i n s ≡ (t, none)
      → view t ≡ record (view s) { mtu = at same i n (view s).mtu }
  pub set_ns_law :
      (i : d.Intf) (n : ℕ) (s t : d.System)
      → d.set_ns i n s ≡ (t, none)
      → view t ≡ record (view s) { pid = at same i (some n) (view s).pid }
  pub add_to_bridge_law :
      (b i : d.Intf) (s t : d.System)
      → d.add_to_bridge b i s ≡ (t, none)
      → view t ≡ record (view s) { master = at same i (some b) (view s).master }
  pub add_ip_law :
      (i : d.Intf) (ip : ℕ) (n : IpNet) (s t : d.System)
      → d.add_ip i ip n s ≡ (t, none)
      → view t ≡ record (view s) { address = at same i (some (ip, n)) (view s).address }
  pub add_default_gw_law :
      (i : d.Intf) (ip : ℕ) (s t : d.System)
      → d.add_default_gw i ip s ≡ (t, none)
      → view t ≡ record (view s) { gateway = at same i (some ip) (view s).gateway }
  pub set_hostname_law :
      (name : Text) (s t : d.System)
      → d.set_hostname name s ≡ (t, none)
      → view t ≡ record (view s) { hostname = name }
  pub create_veth_law :
      (h c : Text) (s t : d.System) (ends : d.Intf × d.Intf)
      → d.create_veth h c s ≡ (t, ok ends)
      → (i : d.Intf) → i ≢ ends.0
      → i ≢ ends.1
      → (view t).up i ≡ (view s).up i
