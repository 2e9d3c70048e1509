-- ===== src/Firewall/Tests.antt =====
-- Runs of the packet filter on one list of rules and one packet.
use garden_linux.Common.{
  leb, ◌==◌, ℕ, ◌≡◌, refl, sym, ap, Bool, true, false, not, ◌&&◌, ◌||◌, List, [], ◌∷◌, ◌++◌, Option,
  none, some, if◌then◌else◌, ltb, length, drop, All, err, Text, codes, text_beq, text_eq, nat_eq,
}
use garden_linux.Common.Decimal.{decimal, parse_uint, read_digits}
use garden_linux.Firewall.{Command, Failure}
use garden_linux.Firewall.Rules.{
  allows_port, Rule, nat, source_nat, network_flags, port_flags, icmp_flags, SingleRule,
  protocol_name, tcp, all, IpRange, PortRange, NetOutRule, Chain, new_logging_chain, log_flags,
}
use garden_linux.Firewall.Chain.{prepend_filter_rule, ports_for_protocol, single_of, net_out}
use garden_linux.Firewall.Deciding.{singles, each_single, prepend_filter_rule-each_single}
use garden_linux.Firewall.Packets.{Packet}
use garden_linux.Firewall.Flags.{append_rule-delete_rule, Paired, ran, logged}
use garden_linux.Firewall.Chain.{append_rule, delete_rule, append_nat_rule, delete_nat_rule}
use garden_linux.Firewall.Rules.{returns}
use garden_linux.Firewall.Verdicts.{target_words, net_out-decide, decide, Meets, insertion}

abbrev ip_text : ℕ → Text
ip_text = decimal

abbrev chain : Chain
chain = new_logging_chain (codes "i") false

-- The rules of the chain, the first one first; every command is an insertion.
abbrev accept : Command → List (List Text) → List (List Text) × Option Failure
accept c rules = (drop 4 c.args ∷ rules, none)

abbrev web : NetOutRule
web = record {
  protocol = tcp;
  networks = record { start = some 5; end = some 9 } ∷ record { start = some 20; end = none } ∷ [];
  ports = record { start = 80; end = 80 } ∷ [];
  icmps = none;
  log = false;
}

abbrev request : Packet
request = record { protocol = tcp; destination = 20; port = 80; icmp_type = 0; icmp_code = 0 }

after_web : List (List Text)
unfolding net_out
after_web = (net_out accept ip_text web chain []).0

abbrev split_at : ℕ → Text → Text × Text
split_at c [] = ([], [])
split_at c (x ∷ xs) =
    let (before, after) = split_at c xs in if x == c then ([], xs) else (x ∷ before, after)

abbrev at_least : ℕ → Text → Bool
at_least n w = elim (parse_uint w) [ none ↦ false | some a ↦ leb a n ]

abbrev at_most : ℕ → Text → Bool
at_most n w = elim (parse_uint w) [ none ↦ false | some a ↦ leb n a ]

-- A number, or two with a character between them.
abbrev in_range : ℕ → ℕ → Text → Bool
in_range c n w = let (a, b) = split_at c w in text_beq w (decimal n) || at_least n a && at_most n b

-- What an option with its value matches.
abbrev meets_option : Packet → Text → Text → Bool
meets_option p option value =
    if text_beq option (codes "--protocol")
    then text_beq value (codes "all") || text_beq value (codes "tcp")
    else if text_beq option (codes "--destination")
    then text_beq value (decimal p.destination)
    else if text_beq option (codes "--dst-range")
    then in_range 45 p.destination value
    else if text_beq option (codes "--destination-port")
    then in_range 58 p.port value
    else true

-- All options, for tcp packets.
abbrev matches : List Text → Packet → Bool
matches [] p = true
matches (option ∷ []) p = false
matches (option ∷ value ∷ rest) p = meets_option p option value && matches rest p

abbrev last : List Text → Text
last [] = []
last (w ∷ []) = w
last (v ∷ w ∷ ws) = last (w ∷ ws)

abbrev target : Bool → Text
target log = if log then codes "i-log" else codes "RETURN"

last-append : (init : List Text) (v w : Text) → last (init ++ v ∷ w ∷ []) ≡ w
last-append [] v w = refl
last-append (u ∷ []) v w = refl
last-append (u ∷ x ∷ init) v w = last-append (x ∷ init) v w

last-target : (init : List Text) (log : Bool) → last (init ++ target_words chain log) ≡ target log
unfolding new_logging_chain
last-target init true = last-append init (codes "--goto") (codes "i-log")
last-target init false = last-append init (codes "--jump") (codes "RETURN")

accept_inserts :
    (spec : List Text) (s t : List (List Text))
    → accept (insertion chain spec) s ≡ (t, none)
    → t ≡ spec ∷ s
unfolding garden_linux.Firewall.Rules.iptables_command
accept_inserts spec s t h = sym (ap (λ r. r.0) h)

web-Meets :
    All (Meets accept ip_text chain (λ s. s) matches last (codes "DROP") request) (singles web)
unfolding single_of decimal parse_uint read_digits
web-Meets = (refl, (refl, record {}))

net_out-decide_example :
    decide accept ip_text chain (λ s. s) matches last (codes "DROP") request after_web
    ≡ codes "RETURN"
unfolding net_out garden_linux.Firewall.Chain.prepend_filter_rule
    garden_linux.Firewall.Rules.allows_port garden_linux.Firewall.Chain.network_loop
    garden_linux.Firewall.Chain.each_network garden_linux.Firewall.Chain.and_then
    garden_linux.Firewall.Chain.port_loop garden_linux.Firewall.Chain.each_port
    garden_linux.Firewall.Chain.prepend_single_rule garden_linux.Firewall.Rules.protocol_name
    garden_linux.Firewall.Chain.single_of garden_linux.Firewall.Chain.attempt after_web
net_out-decide_example =
    net_out-decide accept ip_text chain (λ s. s) matches last (codes "DROP") target accept_inserts
      last-target web request [] after_web web-Meets refl

abbrev as_text : ℕ → Text
as_text n = n ∷ []

-- A masqueraded network, and the same rule for another one.
abbrev here_net : Text
here_net = codes "10.0.0.0/30"

abbrev there_net : Text
there_net = codes "10.0.0.4/30"

append_rule-delete_rule_example :
    Paired
      (codes "-w" ∷ [])
      chain
      chain
      (ran (append_rule logged as_text here_net [] returns chain))
      (ran (delete_rule logged as_text there_net [] returns chain))
      ((here_net ≡ there_net) × ◌≡◌ {A = Text} [] [] × (returns ≡ returns))
    × Paired
        (codes "-w" ∷ codes "-t" ∷ codes "nat" ∷ [])
        chain
        chain
        (ran (append_nat_rule logged as_text here_net [] returns (some 7) chain))
        (ran (delete_nat_rule logged as_text there_net [] returns (some 7) chain))
        ((here_net ≡ there_net)
          × ◌≡◌ {A = Text} [] []
          × (returns ≡ returns)
          × ◌≡◌ {A = Option ℕ} (some 7) (some 7))
append_rule-delete_rule_example =
    append_rule-delete_rule as_text (λ a b h. ap (λ w. elim w [ [] ↦ 0 | x ∷ _ ↦ x ]) h) here_net
      there_net [] [] returns returns (some 7) (some 7) chain chain

prepend_filter_rule-each_single_example : prepend_filter_rule accept ip_text web chain [] ≡ (
    if ltb 0 (length web.ports) && not (allows_port web.protocol)
    then ([], err (ports_for_protocol web.protocol))
    else each_single accept ip_text chain (singles web) [])
prepend_filter_rule-each_single_example =
    prepend_filter_rule-each_single accept ip_text chain web []
