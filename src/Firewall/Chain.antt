-- ===== src/Firewall/Chain.antt =====
-- network/iptables/iptables.go: the operations on one chain of the packet filter, and
-- network/filter.go, which gives a container its chain. The command runner is a parameter: it gives
-- the state of the system that a command leaves, and the failure if there is one.
use garden_linux.Common.{
  ℕ, not, ◌&&◌, List, [], ◌∷◌, ◌++◌, Option, none, some, if◌then◌else◌, ltb, length, Outcome, ok,
  err, panic, Text, codes, text_beq, text_eq, nat_eq,
}
use garden_linux.Firewall.{Command, Failure}
use garden_linux.Firewall.Rules.{
  Protocol, NetOutRule, PortRange, IpRange, SingleRule, Chain, unset, nat, Action, Rule, flags,
  single_params, iptables_command, build_log_params, protocol_name, allows_port,
}

-- What can go wrong, with the error that caused it.
pub data RuleError : Type 0 where
  log_chain_setup : Text → RuleError
  ports_for_protocol : Protocol → RuleError
  invalid_protocol : Protocol → RuleError
  iptables : Text → Text → RuleError
  unwrapped : Text → RuleError
  network_log_chain_setup : RuleError → RuleError

unfoldable pub single_of : NetOutRule → SingleRule
single_of r = record {
  protocol = r.protocol;
  networks = none;
  ports = none;
  icmps = r.icmps;
  log = r.log;
}

module _ {S : Type 0} (run : Command → S → S × Option Failure) where
  abbrev Step : Type 0
  Step = S → S × Outcome RuleError (Unit {0})

  -- `if err := run(command); err != nil { return wrap(err) }`, and then the rest.
  unfoldable pub attempt : (Failure → RuleError) → Command → Step → Step
  attempt wrap command rest s =
      let (t, failed) = run command s in elim failed [ none ↦ rest t | some e ↦ (t, err (wrap e)) ]

  abbrev pub done : Step
  done s = (s, ok tt)

  abbrev of_message : (Text → RuleError) → Failure → RuleError
  of_message wrap e = wrap e.message

  unfoldable pub tear_down : Chain → Step
  tear_down ch s =
      if text_beq ch.log_chain_name []
      then (s, panic)
      else let (t, _) =
          run (iptables_command (codes "-w" ∷ codes "-F" ∷ ch.log_chain_name ∷ [])) s in
        let (u, _) = run (iptables_command (codes "-w" ∷ codes "-X" ∷ ch.log_chain_name ∷ [])) t in
        done u

  unfoldable pub setup : Text → Chain → Step
  setup log_prefix ch s =
      if text_beq ch.log_chain_name []
      then (s, panic)
      else attempt (of_message log_chain_setup)
          (iptables_command (codes "-w" ∷ codes "-N" ∷ ch.log_chain_name ∷ []))
          (attempt (of_message log_chain_setup)
            (iptables_command (
              (codes "-w"
                ∷ codes "-A"
                ∷ ch.log_chain_name
                ∷ codes "-m"
                ∷ codes "conntrack"
                ∷ codes "--ctstate"
                ∷ codes "NEW,UNTRACKED,INVALID"
                ∷ codes "--protocol"
                ∷ codes "tcp"
                ∷ [])
              ++ build_log_params ch log_prefix))
            (attempt (of_message log_chain_setup)
              (iptables_command (
                codes "-w" ∷ codes "-A" ∷ ch.log_chain_name ∷ codes "--jump" ∷ codes "RETURN" ∷ []))
              done))
          (tear_down ch s).0

  -- `if err != nil { return err }`, and then the rest.
  unfoldable pub resume : S × Outcome RuleError (Unit {0}) → Step → S × Outcome RuleError (Unit {0})
  resume (s, ok _) rest = rest s
  resume (s, err e) rest = (s, err e)
  resume (s, panic) rest = (s, panic)

  unfoldable pub and_then : Step → Step → Step
  unfolding resume
  and_then first rest s = resume (first s) rest

  module _ (ip_text : ℕ → Text) where
    unfoldable pub create : Chain → Rule → Step
    create ch n =
        attempt (of_message unwrapped) (iptables_command (flags ip_text (codes "-A") ch.name n))
          done

    unfoldable pub destroy : Chain → Rule → Step
    destroy ch n =
        attempt (of_message unwrapped) (iptables_command (flags ip_text (codes "-D") ch.name n))
          done

    abbrev pub plain : Text → Text → Action → Rule
    plain source destination jump = record {
      typ = unset;
      source = source;
      destination = destination;
      to = none;
      jump = jump;
    }

    abbrev pub nat_rule : Text → Text → Action → Option ℕ → Rule
    nat_rule source destination jump to = record (plain source destination jump) {
      typ = nat;
      to = to;
    }

    unfoldable pub append_rule : Text → Text → Action → Chain → Step
    unfolding create
    append_rule source destination jump ch = create ch (plain source destination jump)

    unfoldable pub delete_rule : Text → Text → Action → Chain → Step
    unfolding destroy
    delete_rule source destination jump ch = destroy ch (plain source destination jump)

    unfoldable pub append_nat_rule : Text → Text → Action → Option ℕ → Chain → Step
    unfolding create
    append_nat_rule source destination jump to ch = create ch (nat_rule source destination jump to)

    unfoldable pub delete_nat_rule : Text → Text → Action → Option ℕ → Chain → Step
    unfolding destroy
    delete_nat_rule source destination jump to ch = destroy ch (nat_rule source destination jump to)

    unfoldable pub prepend_single_rule : SingleRule → Chain → Step
    prepend_single_rule r ch s = elim (protocol_name r.protocol) [
      | none ↦ (s, err (invalid_protocol r.protocol))
      | some name ↦
          attempt (λ e. iptables e.message e.stderr)
            (iptables_command (single_params ip_text ch name r)) done s
    ]

    -- The inner loop from one index on.
    unfoldable pub each_port : SingleRule → List PortRange → Chain → Step
    unfolding and_then
    each_port single [] ch = done
    each_port single (p ∷ ps) ch =
        and_then (prepend_single_rule (record single { ports = some p }) ch)
          (each_port single ps ch)

    -- The inner loop: it loops once even if there are no ports.
    unfoldable pub port_loop : SingleRule → List PortRange → Chain → Step
    port_loop single [] ch = prepend_single_rule single ch
    port_loop single (p ∷ ps) ch = each_port single (p ∷ ps) ch

    unfoldable pub each_network : SingleRule → List IpRange → List PortRange → Chain → Step
    each_network single [] ports ch = done
    each_network single (n ∷ ns) ports ch =
        and_then (port_loop (record single { networks = some n }) ports ch)
          (each_network single ns ports ch)

    -- The outer loop: it loops once even if there are no networks.
    unfoldable pub network_loop : SingleRule → List IpRange → List PortRange → Chain → Step
    network_loop single [] ports ch = port_loop single ports ch
    network_loop single (n ∷ ns) ports ch = each_network single (n ∷ ns) ports ch

    unfoldable pub prepend_filter_rule : NetOutRule → Chain → Step
    prepend_filter_rule r ch s =
        if ltb 0 (length r.ports) && not (allows_port r.protocol)
        then (s, err (ports_for_protocol r.protocol))
        else network_loop (single_of r) r.networks r.ports ch s

    -- `filter.NetOut`.
    unfoldable pub net_out : NetOutRule → Chain → Step
    net_out r ch = prepend_filter_rule r ch

  -- `filter.Setup`.
  unfoldable pub setup_filter : Text → Chain → Step
  unfolding setup
  setup_filter log_prefix ch s =
      let (t, result) = setup log_prefix ch s in
      elim result [
        | ok _ ↦ (t, ok tt)
        | err e ↦ (t, err (network_log_chain_setup e))
        | panic ↦ (t, panic)
      ]

  -- `filter.TearDown`: the result is dropped.
  unfoldable pub tear_down_filter : Chain → Step
  unfolding tear_down
  tear_down_filter ch = tear_down ch
