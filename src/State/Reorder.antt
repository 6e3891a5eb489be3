-- ===== src/State/Reorder.antt =====
-- The operations of the `Store` of state.py that replace or move whole groups of rules, and the
-- switches of the router. `digest_block` and `digest_ids` stand for `_content_revision`.
pub mod Picked
pub mod Permutation
use anyhop.Prelude.{
  ℕ, zero, suc, ◌+◌, Bool, true, false, not, ◌&&◌, ◌||◌, Option, none, some, List, [], ◌∷◌, ◌++◌,
  map, Text, ◌==◌, contains, ltb, list_eq, nat_eq, if◌then◌else◌,
}
use anyhop.Prelude.Dict.{Dict, lookup, assign}
use anyhop.Prelude.Lists.{select, find, position, length, any_of}
use anyhop.Result.{Result, ok, err, ◌>>=◌, ◌>>◌, require}
use anyhop.Rule.{Rule}
use anyhop.State.{
  Data, StateError, empty_name, no_matchers, unknown_ruleset, duplicate_ids, unknown_ids,
  missing_ids, already_there, no_block,
}
use anyhop.State.Channels.{Outcome, ensure_channel_target}
use anyhop.State.Edits.{require_revision}
use anyhop.State.Rulesets.{Block, ruleset_blocks}
use anyhop.State.RuleEdits.{
  Matcher, with_rules, is_empty, in_ruleset, make_rules, known_block, block_of, end_of, insert_at,
  position_or_fail, committed,
}

-- `_ruleset_revision` and `_ruleset_order_revision`
unfoldable pub ruleset_revision :
    (Block → Text) → List Rule → Text → Result StateError (Option Text)
ruleset_revision digest_block rules rsid = ruleset_blocks rules >>= λ blocks.
    ok (elim (find (λ (b : Block). b.id == rsid) blocks) [
      | none ↦ none
      | some b ↦ some (digest_block b)
    ])

unfoldable pub block_ids : List Block → List Text
block_ids [] = []
block_ids (b ∷ blocks) = b.id ∷ block_ids blocks

unfoldable pub order_revision : (List Text → Text) → List Rule → Result StateError (Option Text)
order_revision digest_ids rules =
    ruleset_blocks rules >>= λ blocks. ok (some (digest_ids (block_ids blocks)))

unfoldable pub smaller : ℕ → ℕ → ℕ
smaller m n = if ltb n m then n else m

unfoldable pub first_row : Text → Option ℕ → Result StateError ℕ
first_row rsid none = err (unknown_ruleset rsid)
first_row rsid (some i) = ok i

unfoldable pub update_ruleset :
    (Block → Text) → Data → Text → Text → Text → List Matcher → Option Text → Outcome Block
update_ruleset digest_block state rsid name target matchers expected =
    let rules = state.router.rules in
    let others = select (λ rule. not (in_ruleset rsid rule)) rules in
    require (not (name == [])) empty_name
    >> require (not (is_empty matchers)) no_matchers
    >> ruleset_revision digest_block rules rsid
    >>= λ current.
        require_revision expected current
        >> ensure_channel_target state target
        >> first_row rsid (position (in_ruleset rsid) rules)
        >>= λ i.
            committed rsid
              (insert_at (smaller i (length others))
                (make_rules others target rsid name matchers []) others)
              state

-- `for rid in proposed: …`: the ids seen and the repeated ones.
unfoldable pub repeated : List Text → List Text → List Text → List Text
repeated [] seen dupes = dupes
repeated (id ∷ ids) seen dupes =
    repeated ids (id ∷ seen)
      (if contains seen id && not (contains dupes id) then dupes ++ id ∷ [] else dupes)

unfoldable pub require_none : List Text → (List Text → StateError) → Result StateError (Unit {0})
require_none [] e = ok tt
require_none (id ∷ ids) e = err (e (id ∷ ids))

unfoldable pub check_permutation : List Text → List Text → Result StateError (Unit {0})
check_permutation current proposed =
    require_none (repeated proposed [] []) duplicate_ids
    >> require_none (select (λ id. not (contains current id)) proposed) unknown_ids
    >> require_none (select (λ id. not (contains proposed id)) current) missing_ids

-- `dict.fromkeys(ids)`
unfoldable pub deduped : List Text → List Text → List Text
deduped [] seen = []
deduped (id ∷ ids) seen = elim (contains seen id) [
  | true ↦ deduped ids seen
  | false ↦ id ∷ deduped ids (id ∷ seen)
]

-- `{rule["id"]: rule for rule in rules}`, where the last rule of an id wins.
unfoldable pub by_id : List Rule → Dict Text Rule → Dict Text Rule
by_id [] found = found
by_id (rule ∷ rules) found = by_id rules (assign rule.id rule found)

unfoldable pub is_at : Text → Option Rule → Bool
is_at rsid none = false
is_at rsid (some rule) = rule.ruleset_id == rsid

unfoldable pub is_missing : {A : Type 0} → Option A → Bool
is_missing none = true
is_missing (some a) = false

-- The rows of ids, as a read of the dict finds them.
unfoldable pub rows_of : Dict Text Rule → List Text → List Rule
rows_of rows [] = []
rows_of rows (id ∷ ids) = elim (lookup id rows) [
  | none ↦ rows_of rows ids
  | some rule ↦ rule ∷ rows_of rows ids
]

unfoldable pub adopted : Block → List Rule → List Rule
adopted dest [] = []
adopted dest (rule ∷ rules) =
    record rule { ruleset_id = dest.id; ruleset_name = some dest.name; target = dest.target }
    ∷ adopted dest rules

unfoldable pub move_rules : Data → List Text → Text → Outcome (Block × List Text)
move_rules state ids rsid =
    let rules = state.router.rules in
    let wanted = deduped ids [] in
    let rows = by_id rules [] in
    let others = select (λ (rule : Rule). not (contains wanted rule.id)) rules in
    ruleset_blocks rules >>= λ blocks. known_block rsid blocks >>= λ dest.
    require_none (select (λ id. is_missing (lookup id rows)) wanted) unknown_ids
    >> require_none (select (λ id. is_at rsid (lookup id rows)) wanted) already_there
    >> position_or_fail (end_of rsid others)
    >>= λ end.
        let moved = insert_at end (adopted dest (rows_of rows wanted)) others in
        ruleset_blocks moved >>= λ after. block_of rsid after >>= λ block. ok (
          (block, select (λ id. not (contains (block_ids after) id)) (block_ids blocks)),
          with_rules moved state,
        )

unfoldable pub ids_of : List Rule → List Text
ids_of [] = []
ids_of (rule ∷ rules) = rule.id ∷ ids_of rules

unfoldable pub reorder_rules : Data → List Text → Outcome Bool
reorder_rules state ids =
    let rules = state.router.rules in
    let ordered = rows_of (by_id rules []) ids in
    ruleset_blocks rules
    >> check_permutation (ids_of rules) ids
    >> ruleset_blocks ordered
    >> ok (not (ids == ids_of rules), with_rules ordered state)

-- `[rule for rsid in proposed for rule in by_id[rsid]]`
unfoldable pub rows_in_order : List Block → List Text → List Rule
rows_in_order blocks [] = []
rows_in_order blocks (id ∷ ids) = elim (find (λ (b : Block). b.id == id) blocks) [
  | none ↦ rows_in_order blocks ids
  | some b ↦ b.rules ++ rows_in_order blocks ids
]

unfoldable pub reorder_rulesets :
    (List Text → Text) → Data → List Text → Option Text → Outcome (List Block × Bool)
reorder_rulesets digest_ids state ids expected =
    let rules = state.router.rules in
    order_revision digest_ids rules >>= λ current.
    require_revision expected current >> ruleset_blocks rules >>= λ blocks.
    check_permutation (block_ids blocks) ids
    >> ruleset_blocks (rows_in_order blocks ids)
    >>= λ ordered.
        ok ((ordered, not (ids == block_ids blocks)), with_rules (rows_in_order blocks ids) state)

unfoldable pub set_killswitch : Data → Bool → Data
set_killswitch state enabled = record state {
  router = record state.router { killswitch = enabled };
}

unfoldable pub set_lan_direct : Data → Bool → Data
set_lan_direct state enabled = record state {
  router = record state.router { lan_direct = enabled };
}

unfoldable pub set_tun : Data → Bool → Data
set_tun state enabled = record state { router = record state.router { tun = enabled } }
