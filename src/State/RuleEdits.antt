-- ===== src/State/RuleEdits.antt =====
-- The operations of the `Store` of state.py on rules and rulesets.
pub mod Created
use anyhop.Prelude.{
  ℕ, zero, suc, ◌+◌, Bool, true, false, not, ◌&&◌, ◌||◌, Option, none, some, List, [], ◌∷◌, ◌++◌,
  Text, ◌==◌, contains, list_eq, nat_eq, if◌then◌else◌,
}
use anyhop.Prelude.Dict.{Dict, lookup, assign}
use anyhop.Prelude.Lists.{select, find, position}
use anyhop.Result.{Result, ok, err, ◌>>=◌, ◌>>◌, require}
use anyhop.Rule.{Rule, MatcherType}
use anyhop.State.{
  Data, Channel, StateError, empty_name, no_matchers, unknown_ruleset, duplicate_ids, unknown_ids,
  missing_ids, already_there, no_block,
}
use anyhop.State.Channels.{Outcome, ensure_channel_target}
use anyhop.State.Edits.{require_revision}
use anyhop.State.Rulesets.{Block, next_rule_id, next_ruleset_id, ruleset_blocks}

abbrev pub Matcher : Type 0
Matcher = MatcherType × Text

unfoldable pub with_rules : List Rule → Data → Data
with_rules rules state = record state { router = record state.router { rules = rules } }

abbrev pub is_empty : {A : Type 0} → List A → Bool
is_empty [] = true
is_empty (x ∷ xs) = false

abbrev pub in_ruleset : Text → Rule → Bool
in_ruleset rsid rule = rule.ruleset_id == rsid

-- The rows of matchers, each with the next id after the rows before.
unfoldable pub make_rules : List Rule → Text → Text → Text → List Matcher → List Rule → List Rule
make_rules rules target rsid name [] created = created
make_rules rules target rsid name ((type, value) ∷ matchers) created =
    make_rules rules target rsid name matchers (
      created
      ++ record {
        id = next_rule_id (rules ++ created);
        type = type;
        value = value;
        target = target;
        ruleset_id = rsid;
        ruleset_name = some name;
      }
        ∷ [])

-- `next(b for b in blocks if b["id"] == ruleset_id)`
unfoldable pub block_of : Text → List Block → Result StateError Block
block_of rsid blocks = elim (find (λ (b : Block). b.id == rsid) blocks) [
  | none ↦ err no_block
  | some b ↦ ok b
]

unfoldable pub last_block : List Block → Result StateError Block
last_block [] = err no_block
last_block (b ∷ []) = ok b
last_block (b ∷ c ∷ blocks) = last_block (c ∷ blocks)

unfoldable pub known_block : Text → List Block → Result StateError Block
known_block rsid blocks = elim (find (λ (b : Block). b.id == rsid) blocks) [
  | none ↦ err (unknown_ruleset rsid)
  | some b ↦ ok b
]

unfoldable pub create_ruleset : (Text → Text) → Data → Text → Text → List Matcher → Outcome Block
create_ruleset strip_space state name target matchers =
    let rules = state.router.rules in
    let label = strip_space name in
    let created = make_rules rules target (next_ruleset_id rules) label matchers [] in
    require (not (is_empty matchers)) no_matchers
    >> require (not (label == [])) empty_name
    >> ensure_channel_target state target
    >> (ruleset_blocks (rules ++ created) >>= last_block)
    >>= λ block. ok (block, with_rules (rules ++ created) state)

-- The position behind the last row of a ruleset.
unfoldable pub end_of : Text → List Rule → Option ℕ
end_of rsid [] = none
end_of rsid (rule ∷ rules) = elim (end_of rsid rules) [
  | none ↦ if rule.ruleset_id == rsid then some 1 else none
  | some n ↦ some (suc n)
]

-- `rules[i:i] = new`
unfoldable pub insert_at : ℕ → List Rule → List Rule → List Rule
insert_at zero new rules = new ++ rules
insert_at (suc i) new [] = new
insert_at (suc i) new (rule ∷ rules) = rule ∷ insert_at i new rules

unfoldable pub position_or_fail : Option ℕ → Result StateError ℕ
position_or_fail none = err no_block
position_or_fail (some n) = ok n

-- The block of a ruleset in the rows that are written.
unfoldable pub committed : Text → List Rule → Data → Outcome Block
committed rsid rules state =
    (ruleset_blocks rules >>= block_of rsid) >>= λ block. ok (block, with_rules rules state)

unfoldable pub add_ruleset_matchers : Data → Text → List Matcher → Outcome Block
add_ruleset_matchers state rsid matchers =
    let rules = state.router.rules in
    require (not (is_empty matchers)) no_matchers
    >> ruleset_blocks rules
    >>= known_block rsid
    >>= λ block. position_or_fail (end_of rsid rules) >>= λ end.
        committed rsid
          (insert_at end (make_rules rules block.target rsid block.name matchers []) rules) state

unfoldable pub remove_ruleset : Data → Text → Outcome (List Rule)
remove_ruleset state rsid =
    let rules = state.router.rules in
    let removed = select (in_ruleset rsid) rules in
    ruleset_blocks rules
    >> require (not (is_empty removed)) (unknown_ruleset rsid)
    >> ok (removed, with_rules (select (λ rule. not (in_ruleset rsid rule)) rules) state)

-- A change of each row of a ruleset.
unfoldable pub change_rows : Text → (Rule → Rule) → List Rule → List Rule
change_rows rsid change [] = []
change_rows rsid change (rule ∷ rules) =
    (if rule.ruleset_id == rsid then change rule else rule) ∷ change_rows rsid change rules

unfoldable pub rename_ruleset : Data → Text → Text → Outcome Block
rename_ruleset state rsid name =
    let rules = state.router.rules in
    require (not (name == [])) empty_name
    >> ruleset_blocks rules
    >> require (not (is_empty (select (in_ruleset rsid) rules))) (unknown_ruleset rsid)
    >> committed rsid (change_rows rsid (λ rule. record rule { ruleset_name = some name }) rules)
        state

unfoldable pub retarget_ruleset : Data → Text → Text → Outcome Block
retarget_ruleset state rsid target =
    let rules = state.router.rules in
    ensure_channel_target state target
    >> ruleset_blocks rules
    >> require (not (is_empty (select (in_ruleset rsid) rules))) (unknown_ruleset rsid)
    >> committed rsid (change_rows rsid (λ rule. record rule { target = target }) rules) state

-- `remove_rules`, which ignores ids that no rule has.
unfoldable pub remove_rules : Data → List Text → List Rule × Data
remove_rules state ids =
    let rules = state.router.rules in
    (
      select (λ (rule : Rule). contains ids rule.id) rules,
      with_rules (select (λ (rule : Rule). not (contains ids rule.id)) rules) state,
    )
