-- ===== src/Firewall/Verdicts.antt =====
-- The verdict on a packet after `NetOut`: what iptables makes of the arguments that it is given is
-- stated as hypotheses, and the first rule of the chain that matches decides.
use garden_linux.Common.{
  true, false, ℕ, ◌≡◌, inl, inr, refl, ap, ◌∙◌, Bool, List, [], ◌∷◌, ◌++◌, Option, none, some,
  if◌then◌else◌, All, Outcome, ok, err, panic, arith, Option-cases, Text, codes, text_eq, nat_eq,
}
use garden_linux.Firewall.Documented.{
  write_conditions, hold_all, conditions, flags-written, hold_all-conditions,
}
use garden_linux.Firewall.{Command, Failure}
use garden_linux.Firewall.Rules.{
  NetOutRule, SingleRule, Chain, single_params, iptables_command, protocol_name, network_flags,
  port_flags, icmp_flags, log_flags,
}
use garden_linux.Firewall.Chain.{
  RuleError, iptables, done, and_then, resume, single_of, attempt, prepend_single_rule, net_out,
}
use garden_linux.Firewall.Deciding.{options, singles, each_single, prepend_filter_rule-each_single}
use garden_linux.Firewall.Packets.{Packet, any, admits, allows, any-singles, with_networks-log, tt}

-- What `-I chain 1` is followed by.
abbrev pub specification : (ℕ → Text) → Chain → Text → SingleRule → List Text
specification ip_text ch name x =
    (codes "--protocol" ∷ name ∷ [])
    ++ network_flags ip_text x.networks
    ++ port_flags x.ports
    ++ icmp_flags x.icmps
    ++ log_flags ch x.log

-- The documented targets: a chain to go to, or the end of this one.
abbrev pub target_words : Chain → Bool → List Text
target_words ch log =
    if log then codes "--goto" ∷ ch.log_chain_name ∷ [] else codes "--jump" ∷ codes "RETURN" ∷ []

log_flags-target_words : (ch : Chain) (log : Bool) → log_flags ch log ≡ target_words ch log
unfolding log_flags
log_flags-target_words ch true = refl
log_flags-target_words ch false = refl

-- What the man page asks to be written for the conditions of a rule and its target.
abbrev pub documented : (ℕ → Text) → Chain → SingleRule → List Text
documented ip_text ch x = write_conditions ip_text (conditions x) ++ target_words ch x.log

specification-documented :
    (ip_text : ℕ → Text) (ch : Chain) (name : Text) (x : SingleRule)
    → protocol_name x.protocol ≡ some name
    → specification ip_text ch name x ≡ documented ip_text ch x
specification-documented ip_text ch name x known =
    flags-written ip_text name x (log_flags ch x.log) known
    ∙ ap (λ ws. write_conditions ip_text (conditions x) ++ ws) (log_flags-target_words ch x.log)

abbrev pub insertion : Chain → List Text → Command
insertion ch spec = iptables_command (codes "-w" ∷ codes "-I" ∷ ch.name ∷ codes "1" ∷ spec)

module _ {ℓ} {S : Type 0} {V : Type ℓ} (run : Command → S → S × Option Failure) (ip_text : ℕ → Text)
    (ch : Chain) (rules : S → List (List Text)) (matches : List Text → Packet → Bool)
    (verdict : List Text → V) (policy : V) where
  -- The first rule of the chain that matches decides.
  abbrev pub decide : Packet → List (List Text) → V
  decide p [] = policy
  decide p (spec ∷ specs) = if matches spec p then verdict spec else decide p specs

  -- The documented arguments of a rule match the packet just when its conditions hold of it.
  abbrev pub Meets : Packet → SingleRule → Type 0
  Meets p x = matches (documented ip_text ch x) p ≡ hold_all p (conditions x)

  attempt-eq-ok :
      (wrap : Failure → RuleError) (c : Command) (s t : S)
      → attempt run wrap c (done run) s ≡ (t, ok tt)
      → run c s ≡ (t, none)
  unfolding attempt
  attempt-eq-ok wrap c s t h = elim (Option-cases (run c s).1) [
    | inl fine ↦ ground (arith, fine, h)
    | inr (e, failed) ↦ absurd (ground (arith, failed, h))
  ]

  prepend_single_rule-eq-ok :
      (x : SingleRule) (s t : S)
      → prepend_single_rule run ip_text x ch s ≡ (t, ok tt)
      → (name : Text) × (protocol_name x.protocol ≡ some name)
        × (run (insertion ch (specification ip_text ch name x)) s ≡ (t, none))
  unfolding prepend_single_rule single_params
  prepend_single_rule-eq-ok x s t h = elim (Option-cases (protocol_name x.protocol)) [
    | inl missing ↦ absurd (ground (arith, missing, h))
    | inr (name, known) ↦ (
      name,
      known,
      attempt-eq-ok (λ e. iptables e.message e.stderr)
          (insertion ch (specification ip_text ch name x)) s t
          (rw (prepend_single_rule, known) at h),
    )
  ]

  resume-eq-ok :
      (r : S × Outcome RuleError (Unit {0})) (rest : S → S × Outcome RuleError (Unit {0})) (t : S)
      → resume run r rest ≡ (t, ok tt)
      → (u : S) × (r ≡ (u, ok tt)) × (rest u ≡ (t, ok tt))
  unfolding resume
  resume-eq-ok (u, ok _) rest t h = (u, refl, h)
  resume-eq-ok (u, err e) rest t h = absurd (ground (arith, h))
  resume-eq-ok (u, panic) rest t h = absurd (ground (arith, h))

  module _ (target : Bool → V)
      (inserts : (spec : List Text) (s t : S)
        → run (insertion ch spec) s ≡ (t, none)
        → rules t ≡ spec ∷ rules s)
      (sends : (init : List Text) (log : Bool)
        → verdict (init ++ target_words ch log) ≡ target log) where
    verdict-specification :
        (name : Text) (x : SingleRule)
        → protocol_name x.protocol ≡ some name
        → verdict (specification ip_text ch name x) ≡ target x.log
    verdict-specification name x known =
        ap verdict (specification-documented ip_text ch name x known)
        ∙ sends (write_conditions ip_text (conditions x)) x.log

    matches-specification :
        (name : Text) (x : SingleRule) (p : Packet)
        → protocol_name x.protocol ≡ some name
        → Meets p x
        → matches (specification ip_text ch name x) p ≡ admits p x
    matches-specification name x p known meets =
        ap (λ spec. matches spec p) (specification-documented ip_text ch name x known)
        ∙ meets
        ∙ hold_all-conditions p x

    each_single-decide :
        (p : Packet) (log : Bool) (xs : List SingleRule) (s t : S)
        → All (Meets p) xs
        → All (λ x. x.log ≡ log) xs
        → each_single run ip_text ch xs s ≡ (t, ok tt)
        → decide p (rules t) ≡ (if any (admits p) xs then target log else decide p (rules s))
    unfolding resume and_then
    each_single-decide p log [] s t meets logs h = ground (arith, h)
    each_single-decide p log (x ∷ xs) s t meets logs h =
        let (u, first, rest) = resume-eq-ok (prepend_single_rule run ip_text x ch s) _ t h in
        let (name, known, ran) = prepend_single_rule-eq-ok x s u first in
        each_single-decide p log xs u t meets.1 logs.1 rest
        ∙ ground (
          arith,
          inserts (specification ip_text ch name x) s u ran,
          matches-specification name x p known meets.0,
          verdict-specification name x known,
          logs.0,
        )

    -- Suppose that `iptables -I chain 1` puts its rule before the others, that for each single
    -- rule of the request the options that the man page documents for it (`--protocol`, `--dst-
    -- range A-B` or `--destination A`, `--destination-port A:B` or `A`, `--icmp-type T/C` or `T`)
    -- match the packet just when all of them hold of it, and that `--goto` the log chain or
    -- `--jump RETURN` at the end decides. Then after a `NetOut` that succeeds, a packet that the
    -- rule of the caller describes (its protocol, one of its networks if it has any, one of its
    -- port ranges if it has any, its icmp type) goes to the log chain if the rule asks for it and
    -- returns otherwise, and every other packet is decided as before.
    pub net_out-decide :
        (r : NetOutRule) (p : Packet) (s t : S)
        → All (Meets p) (singles r)
        → net_out run ip_text r ch s ≡ (t, ok tt)
        → decide p (rules t) ≡ (if allows r p then target r.log else decide p (rules s))
    unfolding net_out single_of
    net_out-decide r p s t meets h =
        each_single-decide p r.log (singles r) s t meets
          (with_networks-log (single_of r) (options r.networks) (options r.ports))
          (ground (arith, prepend_filter_rule-each_single run ip_text ch r s, h))
        ∙ rw (any-singles r p)
