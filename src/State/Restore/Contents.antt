-- ===== src/State/Restore/Contents.antt =====
-- About what the rules that `restore_setup` of state.py writes say.
use anyhop.Prelude.{
  ℕ, ◌+◌, ◌≡◌, refl, sym, ap, ◌∙◌, Option, some, List, [], ◌∷◌, ◌++◌, append_assoc, append-nil,
  Text,
}
use anyhop.Rule.{Rule, MatcherType}
use anyhop.State.RuleEdits.{Matcher}
use anyhop.State.Setup.{RulesetSpec}
use anyhop.State.Restore.{restored_rows, restored_rules}

-- What a row says: its matcher, its target and the name of its ruleset.
abbrev pub Row : Type 0
Row = MatcherType × Text × Text × Option Text

abbrev pub rows_of : List Rule → List Row
rows_of [] = []
rows_of (rule ∷ rules) = (rule.type, rule.value, rule.target, rule.ruleset_name) ∷ rows_of rules

abbrev block_rows : RulesetSpec → List Matcher → List Row
block_rows block [] = []
block_rows block ((type, value) ∷ matchers) =
    (type, value, block.target, some block.name) ∷ block_rows block matchers

-- The rows that the rulesets of a bundle declare, in their order.
abbrev pub declared_rows : List RulesetSpec → List Row
declared_rows [] = []
declared_rows (block ∷ blocks) = block_rows block block.matchers ++ declared_rows blocks

rows_of-concat :
    (rules : List Rule) (rule : Rule)
    → rows_of (rules ++ rule ∷ [])
      ≡ rows_of rules ++ (rule.type, rule.value, rule.target, rule.ruleset_name) ∷ []
rows_of-concat [] rule = refl
rows_of-concat (r ∷ rules) rule =
    ap (λ l. (r.type, r.value, r.target, r.ruleset_name) ∷ l) (rows_of-concat rules rule)

rows_of-restored_rows :
    (block : RulesetSpec) (i : ℕ) (matchers : List Matcher) (rules : List Rule)
    → rows_of (restored_rows block i matchers rules) ≡ rows_of rules ++ block_rows block matchers
unfolding restored_rows
rows_of-restored_rows block i [] rules = sym (append-nil (rows_of rules))
rows_of-restored_rows block i ((type, value) ∷ matchers) rules =
    rows_of-restored_rows block i matchers _
    ∙ ap (λ l. l ++ block_rows block matchers) (rows_of-concat rules _)
    ∙ append_assoc (rows_of rules) ((type, value, block.target, some block.name) ∷ [])
        (block_rows block matchers)

pub rows_of-restored_rules :
    (blocks : List RulesetSpec) (i : ℕ) (rules : List Rule)
    → rows_of (restored_rules blocks i rules) ≡ rows_of rules ++ declared_rows blocks
unfolding restored_rules
rows_of-restored_rules [] i rules = sym (append-nil (rows_of rules))
rows_of-restored_rules (block ∷ blocks) i rules =
    rows_of-restored_rules blocks (i + 1) _
    ∙ ap (λ l. l ++ declared_rows blocks) (rows_of-restored_rows block i block.matchers rules)
    ∙ append_assoc (rows_of rules) (block_rows block block.matchers) (declared_rows blocks)
