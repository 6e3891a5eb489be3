-- ===== src/Tests/RulesetTests.antt =====
-- The theorems on rulesets at the sample.
use native.Mathlib.Decide.{ℕ_discrete}
use anyhop.State.{channels_of, Data, channel_at}
use anyhop.State.Rulesets.{
  target_name, rule_num, or_zero, next_rule_id, highest_rule, extended, block_name, ruleset_num,
  highest_ruleset, next_ruleset_id, new_block, blocks_loop, Block, ruleset_blocks,
}
use anyhop.State.RuleEdits.{last_block, make_rules, with_rules, create_ruleset}
use anyhop.Prelude.Decimal.{read, show}
use anyhop.Prelude.Dict.{lookup}
use anyhop.State.Ids.{partition, target_ref, or_else}
use anyhop.State.Channels.{ensure_channel_target}
use anyhop.Prelude.Lists.{select}
use anyhop.State.Reorder.{repeated, require_none, check_permutation, reorder_rulesets, block_ids}
use anyhop.Prelude.{
  option_eq, ◌≡◌, ◌≢◌, refl, sym, Bool, false, some, List, [], ◌∷◌, ◌++◌, Text, codes, contains,
  list_eq, nat_eq,
}
use anyhop.State.Edits.{require_revision}
use anyhop.Result.{ok}
use anyhop.Rule.{Rule, domain_suffix}
use anyhop.State.RuleEdits.Created.{Created, create_ruleset-Created}
use anyhop.State.Rulesets.Blocks.{flatten, Fits, IsBlock}
use anyhop.State.Rulesets.Readings.{ruleset_blocks-flatten, flatten-ruleset_blocks}
use anyhop.State.Reorder.Permutation.{Reordered, reorder_rulesets_lem}
use anyhop.Tests.Sample.{row, sample, sample-TargetsLive, sample-DistinctIds}

abbrev first_row : Rule
first_row = row "r1" "example.ch" "nord/wg_ch_1" "rs1"

abbrev second_row : Rule
second_row = row "r2" "example.org" "direct" "rs2"

abbrev block_with : Rule → Block
block_with rule = record {
  id = rule.ruleset_id;
  name = codes "set";
  target = rule.target;
  rules = rule ∷ [];
}

abbrev read_blocks : List Block
read_blocks = block_with first_row ∷ block_with second_row ∷ []

ruleset_blocks-flatten_example :
    Fits [] read_blocks × (flatten read_blocks ≡ first_row ∷ second_row ∷ [])
unfolding ruleset_blocks list_eq blocks_loop new_block nat_eq contains or_else
ruleset_blocks-flatten_example =
    ruleset_blocks-flatten (first_row ∷ second_row ∷ []) read_blocks refl

row-IsBlock :
    (rule : Rule) → rule.ruleset_id ≢ [] → block_name rule ≡ codes "set" → IsBlock (block_with rule)
row-IsBlock rule named name = (rule, [], refl, sym name, named, (refl, refl), tt)

read_blocks-Fits : Fits [] read_blocks
unfolding block_name contains or_else list_eq nat_eq
read_blocks-Fits =
    (row-IsBlock first_row (λ h. cc) refl, refl, (row-IsBlock second_row (λ h. cc) refl, refl, tt))

flatten-ruleset_blocks_example : ruleset_blocks (flatten read_blocks) ≡ ok read_blocks
flatten-ruleset_blocks_example = flatten-ruleset_blocks read_blocks read_blocks-Fits

abbrev joined : List Text → Text
joined [] = []
joined (id ∷ ids) = id ++ joined ids

reorder_rulesets_lem_example :
    (ordered : List Block) × (changed : Bool) × (after : Data) × (reorder_rulesets joined sample
        (codes "rs2" ∷ codes "rs1" ∷ [])
        (some (codes "rs1rs2"))
      ≡ ok ((ordered, changed), after))
    × Reordered sample.router.rules after.router.rules
        (codes "rs2" ∷ codes "rs1" ∷ [])
        read_blocks
        ordered
    × ((changed ≡ false) → codes "rs2" ∷ codes "rs1" ∷ [] ≡ block_ids read_blocks)
unfolding ruleset_blocks list_eq blocks_loop new_block nat_eq contains or_else require_revision
    option_eq block_ids check_permutation require_none repeated select
reorder_rulesets_lem_example =
    reorder_rulesets_lem joined sample (codes "rs2" ∷ codes "rs1" ∷ []) (some (codes "rs1rs2"))
      read_blocks tt tt refl refl refl

abbrev added_row : Rule
added_row = record (row "r3" "example.net" "nord/wg_us_1" "rs3") {
  ruleset_name = some (codes "net");
}

create_ruleset-Created_example :
    Created sample
      (with_rules (first_row ∷ second_row ∷ added_row ∷ []) sample)
      (codes "nord/wg_us_1")
      (codes "net")
      ((domain_suffix, codes "example.net") ∷ [])
unfolding create_ruleset list_eq ensure_channel_target target_ref partition nat_eq channel_at lookup
    ruleset_blocks blocks_loop new_block contains make_rules next_ruleset_id show highest_ruleset
    ruleset_num read or_else last_block with_rules block_name extended highest_rule next_rule_id
    or_zero rule_num target_name channels_of ℕ_discrete
create_ruleset-Created_example =
    create_ruleset-Created (λ t. t) sample
      (with_rules (first_row ∷ second_row ∷ added_row ∷ []) sample) (codes "net")
      (codes "nord/wg_us_1") ((domain_suffix, codes "example.net") ∷ [])
      (record {
        id = codes "rs3";
        name = codes "net";
        target = codes "nord/wg_us_1";
        rules = added_row ∷ [];
      })
      sample-TargetsLive sample-DistinctIds refl
