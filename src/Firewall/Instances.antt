-- ===== src/Firewall/Instances.antt =====
-- linux_container/iptables_manager: the chains of one container in the filter table (filter.go) and in
-- the nat table (nat.go), and the manager that sets all of them up or tears them down
-- (iptables_manager.go). The texts of an address and of a network are parameters.
use garden_linux.Common.{ℕ, List, [], ◌∷◌, ◌++◌, Option, none, some, Text, codes, text_eq, nat_eq}
use garden_linux.Subnets.Address.{IpNet}
use garden_linux.Firewall.{Command, Failure}

-- `sysconfig.IPTablesFilterConfig`, as far as these chains use it.
pub record FilterConfig : Type 0 where
  pub forward_chain : Text
  pub default_chain : Text
  pub instance_prefix : Text

-- `sysconfig.IPTablesNATConfig`.
pub record NatConfig : Type 0 where
  pub prerouting_chain : Text
  pub postrouting_chain : Text
  pub instance_prefix : Text

pub data InstanceError : Type 0 where
  filter_error nat_error : Text → InstanceError

-- `exec.Command("iptables", "--wait", args...)`.
abbrev iptables_wait : List Text → Command
iptables_wait args = record { path = codes "iptables"; args = codes "--wait" ∷ args }

-- `exec.Command("sh", "-c", script)`.
abbrev shell : Text → Command
shell script = record { path = codes "sh"; args = codes "-c" ∷ script ∷ [] }

module _ (ip_text : ℕ → Text) (net_text : IpNet → Text) where
  unfoldable pub filter_setup_commands : FilterConfig → Text → Text → ℕ → IpNet → List Command
  filter_setup_commands cfg id bridge ip network =
      let instance_chain = cfg.instance_prefix ++ id in
      iptables_wait (codes "-N" ∷ instance_chain ∷ [])
      ∷ iptables_wait (
          codes "-A"
          ∷ instance_chain
          ∷ codes "-s"
          ∷ net_text network
          ∷ codes "-d"
          ∷ net_text network
          ∷ codes "-j"
          ∷ codes "ACCEPT"
          ∷ [])
      ∷ iptables_wait (codes "-A" ∷ instance_chain ∷ codes "--goto" ∷ cfg.default_chain ∷ [])
      ∷ iptables_wait (
          codes "-I"
          ∷ cfg.forward_chain
          ∷ codes "2"
          ∷ codes "--in-interface"
          ∷ bridge
          ∷ codes "--source"
          ∷ ip_text ip
          ∷ codes "--goto"
          ∷ instance_chain
          ∷ [])
      ∷ []

  unfoldable pub nat_setup_commands : NatConfig → Text → IpNet → List Command
  nat_setup_commands cfg id network =
      let instance_chain = cfg.instance_prefix ++ id in
      iptables_wait (codes "--table" ∷ codes "nat" ∷ codes "-N" ∷ instance_chain ∷ [])
      ∷ iptables_wait (
          codes "--table"
          ∷ codes "nat"
          ∷ codes "-A"
          ∷ cfg.prerouting_chain
          ∷ codes "--jump"
          ∷ instance_chain
          ∷ [])
      ∷ shell (
          codes "(iptables --wait --table nat -S "
          ++ cfg.postrouting_chain
          ++ codes " | grep \"\\-j MASQUERADE\\b\" | grep -q -F -- \"-s "
          ++ net_text network
          ++ codes "\") || iptables --wait --table nat -A "
          ++ cfg.postrouting_chain
          ++ codes " --source "
          ++ net_text network
          ++ codes " ! --destination "
          ++ net_text network
          ++ codes " --jump MASQUERADE")
      ∷ []

unfoldable pub filter_teardown_commands : FilterConfig → Text → List Command
filter_teardown_commands cfg id =
    let instance_chain = cfg.instance_prefix ++ id in
    shell (
      codes "iptables --wait -S "
      ++ cfg.forward_chain
      ++ codes " 2> /dev/null | grep \"\\-g "
      ++ instance_chain
      ++ codes
          "\\b\" | sed -e \"s/-A/-D/\" | xargs --no-run-if-empty --max-lines=1 iptables --wait")
    ∷ shell (codes "iptables --wait -F " ++ instance_chain ++ codes " 2> /dev/null || true")
    ∷ shell (codes "iptables --wait -X " ++ instance_chain ++ codes " 2> /dev/null || true")
    ∷ []

unfoldable pub nat_teardown_commands : NatConfig → Text → List Command
nat_teardown_commands cfg id =
    let instance_chain = cfg.instance_prefix ++ id in
    shell (
      codes "iptables --wait --table nat -S "
      ++ cfg.prerouting_chain
      ++ codes " 2> /dev/null | grep \"\\-j "
      ++ instance_chain
      ++ codes
          "\\b\" | sed -e \"s/-A/-D/\" | xargs --no-run-if-empty --max-lines=1 iptables --wait --table nat")
    ∷ shell
        (codes "iptables --wait --table nat -F " ++ instance_chain ++ codes " 2> /dev/null || true")
    ∷ shell
        (codes "iptables --wait --table nat -X " ++ instance_chain ++ codes " 2> /dev/null || true")
    ∷ []

-- The interface `Chain`.
pub record InstanceChain (S : Type 0) : Type 0 where
  pub setup : Text → Text → ℕ → IpNet → S → S × Option InstanceError
  pub teardown : Text → S → S × Option InstanceError

module _ {S : Type 0} (run : Command → S → S × Option Failure) where
  -- The loop over the commands, from one of them on; it ends at the first error.
  unfoldable pub run_each : (Text → InstanceError) → List Command → S → S × Option InstanceError
  run_each wrap [] s = (s, none)
  run_each wrap (command ∷ commands) s =
      let (t, error) = run command s in
      elim error [ none ↦ run_each wrap commands t | some e ↦ (t, some (wrap e.message)) ]

  -- The loop of `natChain.Setup`: a command that fails is run once more.
  unfoldable pub run_each_twice :
      (Text → InstanceError) → List Command → S → S × Option InstanceError
  run_each_twice wrap [] s = (s, none)
  run_each_twice wrap (command ∷ commands) s =
      let (t, error) = run command s in
      elim error [
        | none ↦ run_each_twice wrap commands t
        | some _ ↦
            let (u, again) = run command t in
            elim again [
              | none ↦ run_each_twice wrap commands u
              | some e ↦ (u, some (wrap e.message))
            ]
      ]

  unfoldable pub filter_chain : (ℕ → Text) → (IpNet → Text) → FilterConfig → InstanceChain S
  filter_chain ip_text net_text cfg = record {
    setup = λ id bridge ip network.
        run_each filter_error (filter_setup_commands ip_text net_text cfg id bridge ip network);
    teardown = λ id. run_each filter_error (filter_teardown_commands cfg id);
  }

  unfoldable pub nat_chain : (ℕ → Text) → (IpNet → Text) → NatConfig → InstanceChain S
  nat_chain ip_text net_text cfg = record {
    setup = λ id bridge ip network.
        run_each_twice nat_error (nat_setup_commands ip_text net_text cfg id network);
    teardown = λ id. run_each nat_error (nat_teardown_commands cfg id);
  }

module _ {S : Type 0} where
  -- `ContainerTeardown`: every chain, and the last error.
  unfoldable pub teardown_from :
      Option InstanceError → List (InstanceChain S) → Text → S → S × Option InstanceError
  teardown_from last [] id s = (s, last)
  teardown_from last (chain ∷ chains) id s =
      let (t, error) = chain.teardown id s in
      elim error [
        | none ↦ teardown_from last chains id t
        | some e ↦ teardown_from (some e) chains id t
      ]

  unfoldable pub container_teardown : List (InstanceChain S) → Text → S → S × Option InstanceError
  unfolding teardown_from
  container_teardown chains id s = teardown_from none chains id s

  -- The loop of `ContainerSetup`: `before` are the chains of the smaller indices.
  unfoldable pub setup_from :
      List (InstanceChain S)
      → List (InstanceChain S)
      → Text
      → Text
      → ℕ
      → IpNet
      → S
      → S × Option InstanceError
  unfolding teardown_from
  setup_from before [] id bridge ip network s = (s, none)
  setup_from before (chain ∷ chains) id bridge ip network s =
      let (t, error) = chain.setup id bridge ip network s in
      elim error [
        | none ↦ setup_from (before ++ chain ∷ []) chains id bridge ip network t
        | some e ↦ ((teardown_from none before id t).0, some e)
      ]

  unfoldable pub container_setup :
      List (InstanceChain S) → Text → Text → ℕ → IpNet → S → S × Option InstanceError
  unfolding container_teardown setup_from
  container_setup chains id bridge ip network s =
      let (t, error) = container_teardown chains id s in
      elim error [ none ↦ setup_from [] chains id bridge ip network t | some e ↦ (t, some e) ]
