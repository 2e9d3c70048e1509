-- ===== src/Firewall/Deciding.antt =====
-- What `NetOut` does to the packets: the loops of `PrependFilterRule` insert one rule for each pair
-- of a network and a port range, and together they match what the rule of the caller allows.
use garden_linux.Common.{
  ℕ, ◌≡◌, refl, sym, ap, ◌∙◌, not, ◌&&◌, List, [], ◌∷◌, ◌++◌, map, append-nil, Option, none, some,
  if◌then◌else◌, ltb, length, Outcome, ok, err, panic, Text, text_eq, nat_eq,
}
use garden_linux.Firewall.{Command, Failure}
use garden_linux.Firewall.Rules.{NetOutRule, PortRange, IpRange, SingleRule, Chain, allows_port}
use garden_linux.Firewall.Chain.{
  RuleError, ports_for_protocol, done, and_then, single_of, prepend_single_rule, each_port,
  port_loop, each_network, network_loop, prepend_filter_rule, resume,
}

-- No entry means no constraint: one rule without the flag.
abbrev pub options {ℓ} : {A : Type ℓ} → List A → List (Option A)
options [] = none ∷ []
options (x ∷ xs) = map some (x ∷ xs)

abbrev pub with_ports : SingleRule → List (Option PortRange) → List SingleRule
with_ports x ps = map (λ p. record x { ports = p }) ps

abbrev pub with_networks :
    SingleRule → List (Option IpRange) → List (Option PortRange) → List SingleRule
with_networks x [] ps = []
with_networks x (n ∷ ns) ps = with_ports (record x { networks = n }) ps ++ with_networks x ns ps

-- One rule for each network and each port range.
abbrev pub singles : NetOutRule → List SingleRule
singles r = with_networks (single_of r) (options r.networks) (options r.ports)

module _ {S : Type 0} (run : Command → S → S × Option Failure) (ip_text : ℕ → Text)
    (ch : Chain) where
  -- The rules of a list, one after the other until one fails.
  abbrev pub each_single : List SingleRule → S → S × Outcome RuleError (Unit {0})
  each_single [] = done run
  each_single (x ∷ xs) = and_then run (prepend_single_rule run ip_text x ch) (each_single xs)

  resume-cong :
      (r : S × Outcome RuleError (Unit {0})) (g h : S → S × Outcome RuleError (Unit {0}))
      → ((s : S) → g s ≡ h s)
      → resume run r g ≡ resume run r h
  unfolding resume
  resume-cong (s, ok _) g h same = same s
  resume-cong (s, err e) g h same = refl
  resume-cong (s, panic) g h same = refl

  resume-done : (r : S × Outcome RuleError (Unit {0})) → resume run r (done run) ≡ r
  unfolding resume
  resume-done (s, ok _) = refl
  resume-done (s, err e) = refl
  resume-done (s, panic) = refl

  resume_assoc :
      (r : S × Outcome RuleError (Unit {0})) (g h : S → S × Outcome RuleError (Unit {0}))
      → resume run (resume run r g) h ≡ resume run r (and_then run g h)
  unfolding resume and_then
  resume_assoc (s, ok _) g h = refl
  resume_assoc (s, err e) g h = refl
  resume_assoc (s, panic) g h = refl

  each_single-append :
      (xs ys : List SingleRule) (s : S)
      → each_single (xs ++ ys) s ≡ and_then run (each_single xs) (each_single ys) s
  unfolding and_then
  each_single-append [] ys s = refl
  each_single-append (x ∷ xs) ys s =
      resume-cong (prepend_single_rule run ip_text x ch s) _ _ (each_single-append xs ys)
      ∙ sym
          (resume_assoc (prepend_single_rule run ip_text x ch s) (each_single xs) (each_single ys))

  each_port-each_single :
      (x : SingleRule) (ps : List PortRange) (s : S)
      → each_port run ip_text x ps ch s ≡ each_single (with_ports x (map some ps)) s
  unfolding each_port
  each_port-each_single x [] s = refl
  each_port-each_single x (p ∷ ps) s =
      resume-cong (prepend_single_rule run ip_text (record x { ports = some p }) ch s) _ _
        (each_port-each_single x ps)

  port_loop-each_single :
      (x : SingleRule) (ps : List PortRange)
      → x.ports ≡ none
      → (s : S) → port_loop run ip_text x ps ch s ≡ each_single (with_ports x (options ps)) s
  unfolding port_loop each_port
  port_loop-each_single x [] bare s =
      ap (λ o. prepend_single_rule run ip_text (record x { ports = o }) ch s) bare
      ∙ sym (resume-done (prepend_single_rule run ip_text (record x { ports = none }) ch s))
  port_loop-each_single x (p ∷ ps) bare s = each_port-each_single x (p ∷ ps) s

  each_network-each_single :
      (x : SingleRule) (ns : List IpRange) (ps : List PortRange)
      → x.ports ≡ none
      → (s : S)
      → each_network run ip_text x ns ps ch s
        ≡ each_single (with_networks x (map some ns) (options ps)) s
  unfolding each_network resume and_then
  each_network-each_single x [] ps bare s = refl
  each_network-each_single x (n ∷ ns) ps bare s =
      resume-cong (port_loop run ip_text (record x { networks = some n }) ps ch s) _ _
        (each_network-each_single x ns ps bare)
      ∙ ap (λ r. resume run r (each_single (with_networks x (map some ns) (options ps))))
          (port_loop-each_single (record x { networks = some n }) ps bare s)
      ∙ sym (
          each_single-append (with_ports (record x { networks = some n }) (options ps))
            (with_networks x (map some ns) (options ps)) s)

  network_loop-each_single :
      (x : SingleRule) (ns : List IpRange) (ps : List PortRange)
      → x.networks ≡ none
      → x.ports ≡ none
      → (s : S)
      → network_loop run ip_text x ns ps ch s
        ≡ each_single (with_networks x (options ns) (options ps)) s
  unfolding network_loop port_loop
  network_loop-each_single x [] ps wide bare s =
      port_loop-each_single x ps bare s
      ∙ ap (λ o. each_single (with_ports (record x { networks = o }) (options ps)) s) wide
      ∙ ap (λ xs. each_single xs s)
          (sym (append-nil (with_ports (record x { networks = none }) (options ps))))
  network_loop-each_single x (n ∷ ns) ps wide bare s = each_network-each_single x (n ∷ ns) ps bare s

  -- `PrependFilterRule` refuses ports for a protocol without ports, and otherwise inserts one rule
  -- for each network and each port range, the networks outermost, one without the flag where there
  -- are none, until one fails.
  pub prepend_filter_rule-each_single :
      (r : NetOutRule) (s : S)
      → prepend_filter_rule run ip_text r ch s ≡ (
          if ltb 0 (length r.ports) && not (allows_port r.protocol)
          then (s, err (ports_for_protocol r.protocol))
          else each_single (singles r) s)
  unfolding prepend_filter_rule allows_port single_of
  prepend_filter_rule-each_single r s =
      rw (network_loop-each_single (single_of r) r.networks r.ports refl refl s)
