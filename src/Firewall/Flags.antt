-- ===== src/Firewall/Flags.antt =====
-- The arguments of iptables determine the rule that they were built from.
use garden_linux.Common.{
  Outcome, ◌↔◌, ℕ, ◌≡◌, ◌≢◌, refl, sym, ap, ◌∙◌, List, [], ◌∷◌, ◌++◌, append_assoc, Option, none,
  some, if◌then◌else◌, arith, Text, codes, text_beq, text_eq, nat_eq,
}
use garden_linux.Firewall.{Command, Failure}
use garden_linux.Firewall.Chain.{
  RuleError, create, destroy, plain, nat_rule, append_rule, delete_rule, append_nat_rule,
  delete_nat_rule, attempt,
}
use garden_linux.Firewall.Rules.{
  Chain, iptables_command, Rule, Table, unset, nat, Action, returns, source_nat, reject, drop,
  action_name, table_flags, text_flags, to_flags, flags, iptables_command,
}

abbrev head {ℓ} : {A : Type ℓ} → A → List A → A
head a [] = a
head a (x ∷ xs) = x

abbrev tail {ℓ} : {A : Type ℓ} → List A → List A
tail [] = []
tail (x ∷ xs) = xs

nil-ne-cons {ℓ} : {A : Type ℓ} {x : A} {xs : List A} → [] ≢ x ∷ xs
nil-ne-cons h = cc

-- The list does not begin with this word.
abbrev Lacks : Text → List Text → Type 0
Lacks w [] = Unit {0}
Lacks w (v ∷ vs) = v ≢ w

text_flags-injective :
    (flag a b : Text) (xs ys : List Text)
    → Lacks flag xs
    → Lacks flag ys
    → text_flags flag a ++ xs ≡ text_flags flag b ++ ys
    → (a ≡ b) × (xs ≡ ys)
unfolding text_flags
text_flags-injective flag [] [] xs ys lx ly h = (refl, h)
text_flags-injective flag [] (c ∷ b) [] ys lx ly h = absurd (ground (arith, h))
text_flags-injective flag [] (c ∷ b) (x ∷ xs) ys lx ly h = absurd (lx cc)
text_flags-injective flag (c ∷ a) [] xs [] lx ly h = absurd (ground (arith, h))
text_flags-injective flag (c ∷ a) [] xs (y ∷ ys) lx ly h = absurd (ly cc)
text_flags-injective flag (c ∷ a) (d ∷ b) xs ys lx ly h = (cc, cc)

text_flags-Lacks :
    (flag w value : Text) (xs : List Text)
    → flag ≢ w
    → Lacks w xs
    → Lacks w (text_flags flag value ++ xs)
unfolding text_flags
text_flags-Lacks flag w [] xs ne lacks = lacks
text_flags-Lacks flag w (c ∷ value) xs ne lacks = ne

table_flags-injective :
    (s t : Table) (a b : Text) (xs ys : List Text)
    → a ≢ codes "-t"
    → b ≢ codes "-t"
    → table_flags s ++ a ∷ xs ≡ table_flags t ++ b ∷ ys
    → (s ≡ t) × (a ≡ b) × (xs ≡ ys)
unfolding table_flags
table_flags-injective unset unset a b xs ys ha hb h = (refl, ap (head a) h, ap tail h)
table_flags-injective unset nat a b xs ys ha hb h = absurd (ha cc)
table_flags-injective nat unset a b xs ys ha hb h = absurd (hb cc)
table_flags-injective nat nat a b xs ys ha hb h =
    (refl, ap (λ w. head a (tail (tail w))) h, ap (λ w. tail (tail (tail w))) h)

read_action : Text → Action
read_action w =
    if text_beq w (codes "RETURN")
    then returns
    else if text_beq w (codes "SNAT")
    then source_nat
    else if text_beq w (codes "REJECT")
    then reject
    else drop

read_action-action_name : (a : Action) → read_action (action_name a) ≡ a
unfolding read_action action_name
read_action-action_name returns = refl
read_action-action_name source_nat = refl
read_action-action_name reject = refl
read_action-action_name drop = refl

action_name-injective : (a b : Action) → action_name a ≡ action_name b → a ≡ b
action_name-injective a b h =
    sym (read_action-action_name a) ∙ ap read_action h ∙ read_action-action_name b

-- The commands that a step runs, were they all to succeed.
abbrev pub logged : Command → List Command → List Command × Option Failure
logged c cs = (cs ++ c ∷ [], none)

abbrev pub ran : (List Command → List Command × Outcome RuleError (Unit {0})) → List Command
ran step = (step []).0

-- One command adds a rule to a chain and one deletes a rule from a chain, and they name the same
-- rule just if `Same` holds.
abbrev pub Paired : List Text → Chain → Chain → List Command → List Command → Type 0 → Type 0
Paired words ch ch' added deleted Same =
    (spec : List Text) × (spec' : List Text) × (added
      ≡ iptables_command (words ++ codes "-A" ∷ ch.name ∷ spec) ∷ [])
    × (deleted ≡ iptables_command (words ++ codes "-D" ∷ ch'.name ∷ spec') ∷ [])
    × ((spec ≡ spec') ↔ Same)

module _ (ip_text : ℕ → Text) (ip_text-injective : (a b : ℕ) → ip_text a ≡ ip_text b → a ≡ b) where
  to_flags-injective : (a b : Option ℕ) → to_flags ip_text a ≡ to_flags ip_text b → a ≡ b
  unfolding to_flags
  to_flags-injective none none h = refl
  to_flags-injective none (some b) h = absurd (nil-ne-cons h)
  to_flags-injective (some a) none h = absurd (nil-ne-cons (sym h))
  to_flags-injective (some a) (some b) h =
      ap some (ip_text-injective a b (ap (λ w. head [] (tail w)) h))

  abbrev at_jump : Rule → List Text
  at_jump n = codes "--jump" ∷ action_name n.jump ∷ to_flags ip_text n.to

  abbrev after_text : Rule → List Text
  after_text n = text_flags (codes "--destination") n.destination ++ at_jump n

  abbrev after_chain : Rule → List Text
  after_chain n = text_flags (codes "--source") n.source ++ after_text n

  flags-split :
      (action chain : Text) (n : Rule)
      → flags ip_text action chain n
        ≡ codes "-w" ∷ (table_flags n.typ ++ action ∷ chain ∷ after_chain n)
  unfolding flags
  flags-split action chain n = simp append_assoc

  jump_ne : codes "--jump" ≢ codes "--destination"
  jump_ne h = cc

  source-Lacks : (n : Rule) → Lacks (codes "--source") (after_text n)
  source-Lacks n =
      text_flags-Lacks (codes "--destination") (codes "--source") n.destination (at_jump n)
        (λ h. cc) (λ h. cc)

  rule-≡ :
      (n m : Rule)
      → n.typ ≡ m.typ
      → n.source ≡ m.source
      → n.destination ≡ m.destination
      → n.to ≡ m.to
      → n.jump ≡ m.jump
      → n ≡ m
  rule-≡ n m typ source destination to jump = cc

  -- Equal arguments come from the same action, chain and rule.
  flags-injective :
      (action action' chain chain' : Text) (n m : Rule)
      → action ≢ codes "-t"
      → action' ≢ codes "-t"
      → flags ip_text action chain n ≡ flags ip_text action' chain' m
      → (action ≡ action') × (chain ≡ chain') × (n ≡ m)
  flags-injective action action' chain chain' n m ha hb h =
      let (typ, same_action, after_action) =
        table_flags-injective n.typ m.typ action action' (chain ∷ after_chain n)
          (chain' ∷ after_chain m) ha hb
          (ap tail (sym (flags-split action chain n) ∙ h ∙ flags-split action' chain' m)) in
      let (source, after_source) =
        text_flags-injective (codes "--source") n.source m.source (after_text n) (after_text m)
          (source-Lacks n) (source-Lacks m) (ap tail after_action) in
      let (destination, rest) =
        text_flags-injective (codes "--destination") n.destination m.destination (at_jump n)
          (at_jump m) jump_ne jump_ne after_source in
      let jump = action_name-injective n.jump m.jump (ap (λ w. head [] (tail w)) rest) in
      let to = to_flags-injective n.to m.to (ap (λ w. tail (tail w)) rest) in
      (same_action, ap (head chain) after_action, rule-≡ n m typ source destination to jump)

  after_chain-injective : (n m : Rule) → n.typ ≡ m.typ → after_chain n ≡ after_chain m → n ≡ m
  after_chain-injective n m typ h =
      (flags-injective (codes "-A") (codes "-A") [] [] n m (λ e. cc) (λ e. cc)
        (flags-split (codes "-A") [] n
          ∙ ap (λ t. codes "-w" ∷ (table_flags t ++ codes "-A" ∷ [] ∷ after_chain n)) typ
          ∙ ap (λ a. codes "-w" ∷ (table_flags m.typ ++ codes "-A" ∷ [] ∷ a)) h
          ∙ sym (flags-split (codes "-A") [] m))).2

  create-destroy :
      (n m : Rule) (ch ch' : Chain) (Same : Type 0)
      → n.typ ≡ m.typ
      → ((n ≡ m) ↔ Same)
      → Paired
          (codes "-w" ∷ table_flags n.typ)
          ch
          ch'
          (ran (create logged ip_text ch n))
          (ran (destroy logged ip_text ch' m))
          Same
  unfolding create destroy attempt
  create-destroy n m ch ch' Same typ same = (
    after_chain n,
    after_chain m,
    ap (λ ws. iptables_command ws ∷ []) (flags-split (codes "-A") ch.name n),
    ap (λ ws. iptables_command ws ∷ [])
        (flags-split (codes "-D") ch'.name m
          ∙ ap (λ t. codes "-w" ∷ (table_flags t ++ codes "-D" ∷ ch'.name ∷ after_chain m))
              (sym typ)),
    (λ h. same.0 (after_chain-injective n m typ h), λ h. ap after_chain (same.1 h)),
  )

  -- If different addresses have different texts: `AppendRule` runs one command with `-A` and the
  -- name of its chain, `DeleteRule` one with `-D` and the name of its own, and what follows is the
  -- same exactly if source, destination and jump are the same; so too for `AppendNATRule` and
  -- `DeleteNATRule`, in the nat table and with the address to translate to.
  pub append_rule-delete_rule :
      (source source' destination destination' : Text) (jump jump' : Action) (to to' : Option ℕ)
      (ch ch' : Chain)
      → Paired
          (codes "-w" ∷ [])
          ch
          ch'
          (ran (append_rule logged ip_text source destination jump ch))
          (ran (delete_rule logged ip_text source' destination' jump' ch'))
          ((source ≡ source') × (destination ≡ destination') × (jump ≡ jump'))
        × Paired
            (codes "-w" ∷ codes "-t" ∷ codes "nat" ∷ [])
            ch
            ch'
            (ran (append_nat_rule logged ip_text source destination jump to ch))
            (ran (delete_nat_rule logged ip_text source' destination' jump' to' ch'))
            ((source ≡ source') × (destination ≡ destination') × (jump ≡ jump') × (to ≡ to'))
  unfolding append_rule delete_rule append_nat_rule delete_nat_rule table_flags
  append_rule-delete_rule source source' destination destination' jump jump' to to' ch ch' = (
    create-destroy (plain logged ip_text source destination jump)
        (plain logged ip_text source' destination' jump') ch ch' _ refl
        (λ h. (ap (λ n. n.source) h, ap (λ n. n.destination) h, ap (λ n. n.jump) h), λ h. cc),
    create-destroy (nat_rule logged ip_text source destination jump to)
        (nat_rule logged ip_text source' destination' jump' to') ch ch' _ refl
        (
          λ h. (
            ap (λ n. n.source) h,
            ap (λ n. n.destination) h,
            ap (λ n. n.jump) h,
            ap (λ n. n.to) h,
          ),
          λ h. cc,
        ),
  )
