-- ===== src/State/Rulesets/Numbers.antt =====
-- About `_next_rule_id` and `_next_ruleset_id` of state.py.
use anyhop.Prelude.{◌+◌, ◌≤◌, inl, inr, ◌≡◌, ◌≢◌, ap, List, [], ◌∷◌, arith, list_eq, nat_eq}
use anyhop.Prelude.Decimal.{read-show}
use anyhop.Prelude.Lists.{In}
use anyhop.Rule.{Rule}
use anyhop.State.Rulesets.{
  or_zero, rule_num, ruleset_num, highest_rule, highest_ruleset, next_rule_id, next_ruleset_id,
}

rule_num-le :
    (rules : List Rule) (rule : Rule) → In rule rules → rule_num rule.id ≤ highest_rule rules
unfolding highest_rule
rule_num-le [] rule m = absurd m
rule_num-le (r ∷ rules) rule (inl same) = ground (arith, ap (λ (x : Rule). rule_num x.id) same)
rule_num-le (r ∷ rules) rule (inr m) = ground (arith, rule_num-le rules rule m)

ruleset_num-le :
    (rules : List Rule) (rule : Rule)
    → In rule rules
    → ruleset_num rule.ruleset_id ≤ highest_ruleset rules
unfolding highest_ruleset
ruleset_num-le [] rule m = absurd m
ruleset_num-le (r ∷ rules) rule (inl same) =
    ground (arith, ap (λ (x : Rule). ruleset_num x.ruleset_id) same)
ruleset_num-le (r ∷ rules) rule (inr m) = ground (arith, ruleset_num-le rules rule m)

rule_num-next : (rules : List Rule) → rule_num (next_rule_id rules) ≡ highest_rule rules + 1
unfolding rule_num next_rule_id or_zero
rule_num-next rules = ground (arith, read-show (highest_rule rules + 1))

ruleset_num-next :
    (rules : List Rule) → ruleset_num (next_ruleset_id rules) ≡ highest_ruleset rules + 1
unfolding ruleset_num next_ruleset_id or_zero
ruleset_num-next rules = ground (arith, read-show (highest_ruleset rules + 1))

pub next_rule_id_fresh :
    (rules : List Rule) (rule : Rule) → In rule rules → rule.id ≢ next_rule_id rules
next_rule_id_fresh rules rule m same =
    absurd (omega (arith, rule_num-le rules rule m, ap rule_num same, rule_num-next rules))

pub next_ruleset_id_fresh :
    (rules : List Rule) (rule : Rule) → In rule rules → rule.ruleset_id ≢ next_ruleset_id rules
next_ruleset_id_fresh rules rule m same =
    absurd (omega (arith, ruleset_num-le rules rule m, ap ruleset_num same, ruleset_num-next rules))
