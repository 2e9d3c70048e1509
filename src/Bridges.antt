-- ===== src/Bridges.antt =====
-- network/bridgemgr/mgr.go: the bridges in use, one for each subnet, and their containers.
pub mod Invariant
pub mod Release
pub mod Sharing
pub mod Kept
pub mod Rereserved
pub mod Prune
mod Tests
use garden_linux.Common.{
  ℕ, Bool, true, false, not, ◌&&◌, List, [], ◌∷◌, ◌++◌, Option, none, some, if◌then◌else◌, Text,
  text_beq, text_eq, Outcome, ok, err, panic,
}
use garden_linux.Common.Map
use garden_linux.Common.Map.{Map}
use garden_linux.Names.{BridgeNameGenerator, generate}
use garden_linux.Subnets.Address.{IpNet, net_eq, net_beq, gateway_ip}

-- The `Builder` and the `Lister`, over the network devices of the host. An error is its text.
pub record Devices : Type 1 where
  pub Kernel : Type 0
  pub create : Text → ℕ → IpNet → Kernel → Kernel × Option Text
  pub destroy : Text → Kernel → Kernel × Option Text
  pub list : Kernel → Outcome Text (List Text)

pub record Manager : Type 0 where
  pub prefix : Text
  pub names : BridgeNameGenerator
  pub owners : Map Text (List Text)
  pub bridge_subnet : Map Text IpNet
  pub subnet_bridge : Map IpNet Text

pub data BridgeError : Type 0 where
  create_failed destroy_failed list_failed : Text → BridgeError
  empty_name : BridgeError
  acquired_for : Text → IpNet → BridgeError

unfoldable pub new : Text → ℕ → Manager
new prefix num = record {
  prefix = prefix;
  names = record { prefix = prefix; bridge_num = num };
  owners = [];
  bridge_subnet = [];
  subnet_bridge = [];
}

-- Reading a key that is missing gives the nil slice.
unfoldable pub owners_of : Option (List Text) → List Text
owners_of none = []
owners_of (some os) = os

-- `m.owners[name] = append(m.owners[name], containerId)`.
unfoldable pub add_owner : Text → Text → Manager → Manager
unfolding owners_of
add_owner name id m = record m {
  owners = Map.insert name (owners_of (Map.lookup name m.owners) ++ id ∷ []) m.owners;
}

-- `remove`: the first occurrence goes.
pub remove : List Text → Text → List Text
remove [] b = []
remove (j ∷ a) b = if text_beq j b then a else j ∷ remove a b

-- `delete(m.subnetBridge, m.bridgeSubnet[bridgeName])`: the text of a bridge that is missing is
-- empty, and no subnet has it.
pub delete_subnet : Option IpNet → Map IpNet Text → Map IpNet Text
delete_subnet none sb = sb
delete_subnet (some s) sb = Map.delete s sb

pub drop_bridge : Text → Manager → Manager
unfolding delete_subnet
drop_bridge name m = record m {
  owners = Map.delete name m.owners;
  subnet_bridge = delete_subnet (Map.lookup name m.bridge_subnet) m.subnet_bridge;
  bridge_subnet = Map.delete name m.bridge_subnet;
}

unfoldable pub rereserve : Text → IpNet → Text → Manager → Manager × Outcome BridgeError (Unit {0})
unfolding add_owner
rereserve name subnet id m =
    let taken = record (add_owner name id m) {
      subnet_bridge = Map.insert subnet name m.subnet_bridge;
      bridge_subnet = Map.insert name subnet m.bridge_subnet;
    } in
    if text_beq name [] then (m, err empty_name) else elim (Map.lookup name m.bridge_subnet) [
      | none ↦ (taken, ok tt)
      | some sn ↦
          if not (net_beq sn subnet) then (m, err (acquired_for name sn)) else (taken, ok tt)
    ]

-- `strings.HasPrefix`.
unfoldable pub has_prefix : Text → Text → Bool
has_prefix s [] = true
has_prefix [] (c ∷ p) = false
has_prefix (b ∷ s) (c ∷ p) = text_beq (b ∷ []) (c ∷ []) && has_prefix s p

pub is_reserved : Text → Manager → Bool
is_reserved r m = Map.has_key r m.bridge_subnet

module _ (d : Devices) where
  open d use {Kernel, create, destroy, list}

  -- Each method returns the manager, the devices and its result; an error leaves what was done.
  unfoldable pub reserve :
      IpNet → Text → Manager → Kernel → Manager × Kernel × Outcome BridgeError Text
  unfolding add_owner generate
  reserve subnet id m k = elim (Map.lookup subnet m.subnet_bridge) [
    | some name ↦ (add_owner name id m, k, ok name)
    | none ↦
        let (name, names) = generate m.names in
        let m₁ = record m { names = names } in
        elim (gateway_ip subnet) [
          | none ↦ (m₁, k, panic)
          | some gateway ↦
              let (k', failed) = create name gateway subnet k in
              elim failed [
                | some e ↦ (m₁, k', err (create_failed e))
                | none ↦
                    let m₂ = record m₁ {
                      subnet_bridge = Map.insert subnet name m.subnet_bridge;
                      bridge_subnet = Map.insert name subnet m.bridge_subnet;
                    } in
                    (add_owner name id m₂, k', ok name)
              ]
        ]
  ]

  destroyed : Kernel × Option Text → Kernel × Outcome BridgeError (Unit {0})
  destroyed (k, none) = (k, ok tt)
  destroyed (k, some e) = (k, err (destroy_failed e))

  unfoldable pub release :
      Text → Text → Manager → Kernel → Manager × Kernel × Outcome BridgeError (Unit {0})
  unfolding remove drop_bridge destroyed owners_of
  release name id m k =
      let left = remove (owners_of (Map.lookup name m.owners)) id in
      let m₁ = record m { owners = Map.insert name left m.owners } in
      elim left [
        | [] ↦ let (k', result) = destroyed (destroy name k) in (drop_bridge name m₁, k', result)
        | o ∷ os ↦ (m₁, k, ok tt)
      ]

  -- The loop of `Prune`; errors of `Destroy` are dropped.
  pub prune_each : List Text → Manager → Kernel → Kernel
  unfolding has_prefix is_reserved
  prune_each [] m k = k
  prune_each (b ∷ bs) m k =
      prune_each bs m
        (if has_prefix b m.prefix && not (is_reserved b m) then (destroy b k).0 else k)

  unfoldable pub prune : Manager → Kernel → Kernel × Outcome BridgeError (Unit {0})
  unfolding prune_each
  prune m k = elim (list k) [
    | ok bs ↦ (prune_each bs m k, ok tt)
    | err e ↦ (k, err (list_failed e))
    | panic ↦ (k, panic)
  ]
