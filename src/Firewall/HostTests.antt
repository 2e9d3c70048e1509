-- ===== src/Firewall/HostTests.antt =====
-- A run of the manager over the two chains of filter.go and nat.go, on a host whose shell is broken.
use garden_linux.Common.{
  ℕ, ◌≡◌, ◌≢◌, ◌⊎◌, refl, Bool, true, false, ◌&&◌, List, [], ◌∷◌, ◌++◌, map, Option, none, some,
  if◌then◌else◌, drop, All, Text, codes, text_beq, text_eq, nat_eq,
}
use garden_linux.Firewall.{Command, Failure}
use garden_linux.Subnets.Address.{IpNet}
use garden_linux.Firewall.Instances.{
  InstanceChain, InstanceError, nat_error, container_setup, container_teardown, filter_chain,
  nat_chain, run_each, run_each_twice, filter_setup_commands, filter_teardown_commands,
  nat_setup_commands, nat_teardown_commands,
}
use garden_linux.Firewall.Undoing.{container_setup-whole, Undone}

abbrev as_text : ℕ → Text
as_text n = n ∷ []

-- A host with the two chains of one container: whether each is there, and whether the shell is
-- broken for the rule of the nat table.
abbrev TwoChains : Type 0
TwoChains = Bool × Bool × Bool

abbrev words_beq : List Text → List Text → Bool
words_beq [] [] = true
words_beq [] (w ∷ ws) = false
words_beq (v ∷ vs) [] = false
words_beq (v ∷ vs) (w ∷ ws) = text_beq v w && words_beq vs ws

abbrev refused : Option Failure
refused = some (record { message = codes "exit status 1"; stderr = [] })

abbrev add_new : Bool → TwoChains → TwoChains → TwoChains × Option Failure
add_new there before after = if there then (before, refused) else (after, none)

abbrev masquerade_script : Text
masquerade_script =
    codes "(iptables --wait --table nat -S Q | grep \"\\-j MASQUERADE\\b\" | grep -q -F -- \"-s "
    ++ as_text 4
    ++ codes "\") || iptables --wait --table nat -A Q --source "
    ++ as_text 4
    ++ codes " ! --destination "
    ++ as_text 4
    ++ codes " --jump MASQUERADE"

-- `-N` makes a chain that is not there, `-X` takes it away, and one script may fail.
abbrev host_run : Command → TwoChains → TwoChains × Option Failure
host_run c (up, nat_up, broken) =
    let before : TwoChains = (up, nat_up, broken) in
    if words_beq c.args (codes "--wait" ∷ codes "-N" ∷ codes "i-c" ∷ [])
    then add_new up before (true, nat_up, broken)
    else if words_beq c.args
        (codes "--wait" ∷ codes "--table" ∷ codes "nat" ∷ codes "-N" ∷ codes "i-c" ∷ [])
    then add_new nat_up before (up, true, broken)
    else if words_beq c.args (codes "-c" ∷ codes "iptables --wait -X i-c 2> /dev/null || true" ∷ [])
    then ((false, nat_up, broken), none)
    else if words_beq c.args
        (codes "-c" ∷ codes "iptables --wait --table nat -X i-c 2> /dev/null || true" ∷ [])
    then ((up, false, broken), none)
    else if words_beq (drop 1 c.args) (masquerade_script ∷ []) && broken
    then (before, refused)
    else (before, none)

abbrev two_chains : Bool → InstanceChain TwoChains
two_chains true =
    filter_chain host_run as_text (λ n. as_text n.ip)
      (record {
        forward_chain = codes "F";
        default_chain = codes "D";
        instance_prefix = codes "i-";
      })
two_chains false =
    nat_chain host_run as_text (λ n. as_text n.ip)
      (record {
        prerouting_chain = codes "P";
        postrouting_chain = codes "Q";
        instance_prefix = codes "i-";
      })

abbrev is_up : Bool → TwoChains → Bool
is_up true h = h.0
is_up false h = h.1

abbrev a_net : IpNet
a_net = record { ip = 4; ones = 30 }

two_removes :
    (n : Bool) (s : TwoChains)
    → ((two_chains n).teardown (codes "c") s).1 ≡ none
    → is_up n ((two_chains n).teardown (codes "c") s).0 ≡ false
unfolding filter_chain nat_chain run_each run_each_twice filter_setup_commands
    filter_teardown_commands nat_setup_commands nat_teardown_commands
two_removes true (f, g, b) h = refl
two_removes false (f, g, b) h = refl

two_stays :
    (n m : Bool) (s : TwoChains)
    → is_up n s ≡ false
    → is_up n ((two_chains m).teardown (codes "c") s).0 ≡ false
unfolding filter_chain nat_chain run_each run_each_twice filter_setup_commands
    filter_teardown_commands nat_setup_commands nat_teardown_commands
two_stays true true (f, g, b) h = refl
two_stays true false (f, g, b) h = h
two_stays false true (f, g, b) h = h
two_stays false false (f, g, b) h = refl

two_apart :
    (n m : Bool) (s : TwoChains)
    → n ≢ m
    → is_up n ((two_chains m).setup (codes "c") (codes "br") 5 a_net s).0 ≡ is_up n s
unfolding filter_chain nat_chain run_each run_each_twice filter_setup_commands
    filter_teardown_commands nat_setup_commands nat_teardown_commands
two_apart true true s ne = absurd (ne refl)
two_apart true false (f, true, true) ne = refl
two_apart true false (f, true, false) ne = refl
two_apart true false (f, false, true) ne = refl
two_apart true false (f, false, false) ne = refl
two_apart false true (true, g, b) ne = refl
two_apart false true (false, g, b) ne = refl
two_apart false false s ne = absurd (ne refl)

two_adds :
    (n : Bool) (s : TwoChains)
    → ((two_chains n).setup (codes "c") (codes "br") 5 a_net s).1 ≡ none
    → is_up n ((two_chains n).setup (codes "c") (codes "br") 5 a_net s).0 ≡ true
unfolding filter_chain nat_chain run_each run_each_twice filter_setup_commands
    filter_teardown_commands nat_setup_commands nat_teardown_commands
two_adds true (true, g, b) h = refl
two_adds true (false, g, b) h = refl
two_adds false (f, true, b) h = refl
two_adds false (f, false, true) h = refl
two_adds false (f, false, false) h = refl

abbrev both : List Bool
both = true ∷ false ∷ []

-- The shell is broken: the filter chain is set up and taken back, the nat chain is left behind.
abbrev nothing_up : TwoChains
nothing_up = (false, false, true)

abbrev nat_left : TwoChains
nat_left = (false, true, true)

left_behind :
    container_setup (map two_chains both) (codes "c") (codes "br") 5 a_net nothing_up
    ≡ (nat_left, some (nat_error (codes "exit status 1")))
unfolding container_setup filter_chain nat_chain run_each run_each_twice filter_setup_commands
    filter_teardown_commands nat_setup_commands nat_teardown_commands
left_behind = refl

container_setup-whole_example :
    (container_setup (map two_chains both) (codes "c") (codes "br") 5 a_net nothing_up
        ≡ (nat_left, none)
      → All (λ n. is_up n nat_left ≡ true) both)
    × ((e : InstanceError)
        → container_setup (map two_chains both) (codes "c") (codes "br") 5 a_net nothing_up
          ≡ (nat_left, some e)
        → (container_teardown (map two_chains both) (codes "c") nothing_up ≡ (nat_left, some e))
          ⊎ Undone two_chains is_up
              (codes "c")
              (codes "br")
              5
              a_net
              two_removes
              two_stays
              two_apart
              both
              nat_left
              e)
container_setup-whole_example =
    container_setup-whole two_chains is_up (codes "c") (codes "br") 5 a_net two_removes two_stays
      two_apart two_adds both nothing_up nat_left (((λ h. cc), record {}), (record {}, record {}))
