-- ===== src/State/Rulesets.antt =====
-- The rulesets of state.py: ids of rules and rulesets, the reading of old files, and the contiguous
-- blocks that a list of rules falls into.
pub mod Blocks
pub mod Readings
pub mod Numbers
use anyhop.Prelude.{
  ℕ, zero, suc, ◌+◌, Bool, true, false, not, Option, none, some, List, [], ◌∷◌, ◌++◌, Text, ◌==◌,
  contains, codes, ltb, leb, list_eq, nat_eq, option_eq, if◌then◌else◌,
}
use anyhop.Prelude.Decimal.{show, read}
use anyhop.Result.{Result, ok, err, ◌>>=◌}
use anyhop.Rule.{Rule, MatcherType, domain, domain_suffix, matcher_eq}
use anyhop.State.{StateError, no_ruleset, not_contiguous, mixed_targets}
use anyhop.State.Ids.{or_else}

unfoldable pub or_zero : Option ℕ → ℕ
or_zero none = 0
or_zero (some n) = n

-- `int(rid[1:])` if the id is an `r` with digits.
unfoldable pub rule_num : Text → ℕ
rule_num [] = 0
rule_num (c ∷ id) = if c == b'r' then or_zero (read id) else 0

-- `int(rsid[2:])` if the id is `rs` with digits.
unfoldable pub ruleset_num : Text → ℕ
ruleset_num [] = 0
ruleset_num (c ∷ []) = 0
ruleset_num (c ∷ d ∷ id) = if c == b'r' then if d == b's' then or_zero (read id) else 0 else 0

unfoldable pub highest_rule : List Rule → ℕ
highest_rule [] = 0
highest_rule (rule ∷ rules) =
    let rest = highest_rule rules in if ltb rest (rule_num rule.id) then rule_num rule.id else rest

unfoldable pub highest_ruleset : List Rule → ℕ
highest_ruleset [] = 0
highest_ruleset (rule ∷ rules) =
    let rest = highest_ruleset rules in
    if ltb rest (ruleset_num rule.ruleset_id) then ruleset_num rule.ruleset_id else rest

unfoldable pub next_rule_id : List Rule → Text
next_rule_id rules = b'r' ∷ show (highest_rule rules + 1)

unfoldable pub next_ruleset_id : List Rule → Text
next_ruleset_id rules = b'r' ∷ b's' ∷ show (highest_ruleset rules + 1)

unfoldable pub target_name : Text → Text
target_name target =
    if target == codes "direct"
    then codes "Direct"
    else if target == codes "block"
    then codes "Block"
    else target

-- The loop of `_normalize_rulesets`: the highest number, and the run of old rows that is open.
abbrev pub normal_type : MatcherType → MatcherType
normal_type type = if type == domain then domain_suffix else type

unfoldable pub default_name : Text → Option Text → Text
default_name target none = target_name target
default_name target (some name) = name

-- A row that has a ruleset, and one that gets the ruleset of a number.
unfoldable pub grouped_row : Rule → Rule
grouped_row rule = record rule {
  type = normal_type rule.type;
  ruleset_name = some (default_name rule.target rule.ruleset_name);
}

unfoldable pub legacy_row : Rule → ℕ → Rule
legacy_row rule n = record rule {
  type = normal_type rule.type;
  ruleset_id = codes "rs" ++ show n;
  ruleset_name = some (target_name rule.target);
}

unfoldable pub normalize_loop : List Rule → ℕ → Option Text → List Rule
normalize_loop [] max_rsid last = []
normalize_loop (rule ∷ rules) max_rsid last = elim (rule.ruleset_id == []) [
  | false ↦ grouped_row rule ∷ normalize_loop rules max_rsid none
  | true ↦ elim (last == some rule.target) [
    | true ↦ legacy_row rule max_rsid ∷ normalize_loop rules max_rsid (some rule.target)
    | false ↦
        legacy_row rule (max_rsid + 1) ∷ normalize_loop rules (max_rsid + 1) (some rule.target)
  ]
]

unfoldable pub normalize_rulesets : List Rule → List Rule
normalize_rulesets rules = normalize_loop rules (highest_ruleset rules) none

pub record Block : Type 0 where
  pub id : Text
  pub name : Text
  pub target : Text
  pub rules : List Rule

-- `str(rule.get("ruleset_name") or _target_name(rule["target"]))`
unfoldable pub block_name : Rule → Text
block_name rule = elim rule.ruleset_name [
  | none ↦ target_name rule.target
  | some name ↦ or_else name (target_name rule.target)
]

unfoldable pub new_block : Rule → Block
unfolding block_name
new_block rule = record {
  id = rule.ruleset_id;
  name = block_name rule;
  target = rule.target;
  rules = rule ∷ [];
}

unfoldable pub extended : Block → Rule → Block
extended block rule = record block { rules = block.rules ++ rule ∷ [] }

-- `block` before the blocks that follow.
abbrev pub before : Block → Result StateError (List Block) → Result StateError (List Block)
before block (ok blocks) = ok (block ∷ blocks)
before block (err e) = err e

-- The loop of `_ruleset_blocks`: the ids of closed blocks and the open block, of id `current`.
unfoldable pub blocks_loop : List Rule → List Text → Block → Result StateError (List Block)
blocks_loop [] closed current = ok (current ∷ [])
blocks_loop (rule ∷ rules) closed current = elim (rule.ruleset_id == []) [
  | true ↦ err (no_ruleset rule.id)
  | false ↦ elim (rule.ruleset_id == current.id) [
    | true ↦ elim (rule.target == current.target) [
      | true ↦ blocks_loop rules closed (extended current rule)
      | false ↦ err (mixed_targets current.id)
    ]
    | false ↦ elim (contains closed rule.ruleset_id) [
      | true ↦ err (not_contiguous rule.ruleset_id)
      | false ↦ before current (blocks_loop rules (current.id ∷ closed) (new_block rule))
    ]
  ]
]

unfoldable pub ruleset_blocks : List Rule → Result StateError (List Block)
ruleset_blocks [] = ok []
ruleset_blocks (rule ∷ rules) =
    let blocks = blocks_loop rules [] (new_block rule) in
    if rule.ruleset_id == [] then err (no_ruleset rule.id) else blocks
