-- ===== src/Bridges/Tests.antt =====
-- Runs of the bridge manager, and the theorems at concrete managers.
use garden_linux.Common.{
  Outcome, err, ◌<◌, ◌+◌, ◌^◌, ◌≡◌, ◌≢◌, ◌⊎◌, inl, refl, false, List, [], ◌∷◌, none, if◌then◌else◌,
  ok, arith, Text, codes, text_beq, text_beq_iff, text_eq, nat_eq,
}
use garden_linux.Common.Map
use garden_linux.Common.Map.{Map}
use garden_linux.Names.{bridge_name}
use garden_linux.Subnets.Address.{IpNet, net_eq, gateway_ip}
use garden_linux.Bridges.{
  BridgeError, destroy_failed, Devices, Manager, new, reserve, rereserve, release, owners_of, some,
}
use garden_linux.Bridges.Invariant.{IsValid, new-IsValid, reserve-IsValid, rereserve-IsValid}
use garden_linux.Bridges.Release.{SameElsewhere, remaining, occurrences, release-left}
use garden_linux.Bridges.Prune.{Presence, is_listed}

-- Devices that are a list of names, where nothing fails.
drop_name : Text → List Text → List Text
drop_name b [] = []
drop_name b (c ∷ cs) = if text_beq b c then drop_name b cs else c ∷ drop_name b cs

abbrev names_only : Devices
names_only = record {
  Kernel = List Text;
  create = λ b ip s k. (b ∷ k, none);
  destroy = λ b k. (drop_name b k, none);
  list = λ k. ok k;
}

is_listed-drop_other :
    (b c : Text) (k : List Text) → b ≢ c → is_listed c (drop_name b k) ≡ is_listed c k
unfolding is_listed drop_name
is_listed-drop_other b c [] ne = refl
is_listed-drop_other b c (x ∷ k) ne =
    ground (arith, is_listed-drop_other b c k ne, text_beq_iff b x, text_beq_iff x c)

is_listed-drop_self : (b : Text) (k : List Text) → is_listed b (drop_name b k) ≡ false
unfolding is_listed drop_name
is_listed-drop_self b [] = refl
is_listed-drop_self b (x ∷ k) =
    ground (arith, is_listed-drop_self b k, text_beq_iff b x, text_beq_iff x b)

names_presence : Presence names_only
names_presence = record {
  present = is_listed;
  destroy_other = is_listed-drop_other;
  destroy_self = λ b k e. is_listed-drop_self b k;
  listed = λ b k bs e h. ground arith;
}

abbrev net_a : IpNet
net_a = record { ip = 2 ^ 24; ones = 30 }

abbrev net_b : IpNet
net_b = record { ip = 2 ^ 24 + 4; ones = 30 }

abbrev start : Manager
start = new (codes "w1b-") 7

start-IsValid : IsValid start
start-IsValid = new-IsValid (codes "w1b-") 7

reserve-IsValid_example : IsValid (reserve names_only net_a (codes "c1") start []).0
unfolding new Map.lookup
reserve-IsValid_example = reserve-IsValid names_only net_a (codes "c1") start [] start-IsValid refl

-- One bridge with one container.
abbrev in_use : Manager
in_use = (rereserve (codes "w1b-x") net_a (codes "c1") start).0

in_use-IsValid : IsValid in_use
unfolding new Map.lookup
in_use-IsValid = rereserve-IsValid start (codes "w1b-x") (codes "c1") net_a start-IsValid (inl refl)

abbrev one_bridge : List Text
one_bridge = codes "w1b-x" ∷ []

abbrev given_back : Manager × List Text × Outcome BridgeError (Unit {0})
given_back = release names_only (codes "w1b-x") (codes "c1") in_use one_bridge

release-left_example :
    IsValid given_back.0
    × SameElsewhere (codes "w1b-x") in_use given_back.0
    × ((((x : Text) → remaining (codes "w1b-x") in_use (codes "c1") x ≡ 0)
          × (Map.lookup (codes "w1b-x") given_back.0.owners ≡ none)
          × (Map.lookup (codes "w1b-x") given_back.0.bridge_subnet ≡ none)
          × ((s : IpNet) → Map.lookup s given_back.0.subnet_bridge ≢ some (codes "w1b-x"))
          × (given_back.1 ≡ (names_only.destroy (codes "w1b-x") one_bridge).0)
          × ((names_only.destroy (codes "w1b-x") one_bridge).1 ≡ none → given_back.2 ≡ ok tt)
          × ((e : Text)
              → (names_only.destroy (codes "w1b-x") one_bridge).1 ≡ some e
              → given_back.2 ≡ err (destroy_failed e)))
        ⊎ (((x : Text) × (0 < remaining (codes "w1b-x") in_use (codes "c1") x))
            × ((x : Text)
                → occurrences x (owners_of (Map.lookup (codes "w1b-x") given_back.0.owners))
                  ≡ remaining (codes "w1b-x") in_use (codes "c1") x)
            × (given_back.0.bridge_subnet ≡ in_use.bridge_subnet)
            × (given_back.0.subnet_bridge ≡ in_use.subnet_bridge)
            × (given_back.1 ≡ one_bridge)
            × (given_back.2 ≡ ok tt)))
release-left_example =
    release-left names_only (codes "w1b-x") (codes "c1") in_use one_bridge in_use-IsValid

after_first : (reserve names_only net_a (codes "c1") start []).2 ≡ ok (codes "w1b-00000000007")
unfolding reserve Map.lookup new gateway_ip bridge_name
after_first = refl
