-- ===== src/State/Reorder/Permutation.antt =====
-- About `reorder_rulesets` of state.py.
use anyhop.Prelude.{
  ◌≡◌, refl, ap, ◌∙◌, Bool, false, not, Option, some, List, [], arith, Text, ◌==◌, list_eq, nat_eq,
}
use anyhop.Prelude.Lists.{In}
use anyhop.Result.{ok}
use anyhop.Rule.{Rule}
use anyhop.State.{Data}
use anyhop.State.Edits.{require_revision}
use anyhop.State.RuleEdits.{with_rules}
use anyhop.State.Rulesets.{Block, ruleset_blocks}
use anyhop.State.Rulesets.Readings.{ruleset_blocks-flatten, flatten-ruleset_blocks}
use anyhop.State.Reorder.{
  block_ids, check_permutation, rows_in_order, order_revision, reorder_rulesets,
}
use anyhop.State.Reorder.Picked.{
  check_permutation-ok, picked, rows_in_order-flatten, find_of_Fits, picked-Fits, picked_sound,
  picked_complete, In-block_ids,
}

-- What a new order leaves: the blocks in the order of the ids, each as it was.
pub record Reordered (before after : List Rule) (ids : List Text) (blocks ordered : List Block)
    : Type 0 where
  pub was : ruleset_blocks before ≡ ok blocks
  pub reads : ruleset_blocks after ≡ ok ordered
  pub in_order : block_ids ordered ≡ ids
  pub same_blocks : (b : Block) → (In b ordered → In b blocks) × (In b blocks → In b ordered)

-- A list of ids that passes `_check_permutation` gives an order that reads back as the same blocks
-- in the order of the ids.
pub rows_in_order-Reordered :
    (rules : List Rule) (blocks : List Block) (ids : List Text) (u : Unit {0})
    → ruleset_blocks rules ≡ ok blocks
    → check_permutation (block_ids blocks) ids ≡ ok u
    → Reordered rules (rows_in_order blocks ids) ids blocks (picked blocks ids)
rows_in_order-Reordered rules blocks ids u e h =
    let (fits, rows) = ruleset_blocks-flatten rules blocks e in
    let (fresh, known, complete) = check_permutation-ok (block_ids blocks) ids u h in
    let (all, order) = picked-Fits blocks ids [] fits fresh known in
    record {
      was = e;
      reads =
          ap ruleset_blocks (rows_in_order-flatten blocks ids)
          ∙ flatten-ruleset_blocks (picked blocks ids) all;
      in_order = order;
      same_blocks = λ b. (
        picked_sound blocks ids b,
        λ m.
            picked_complete blocks ids b (find_of_Fits [] blocks b fits m)
              (complete b.id (In-block_ids blocks b m)),
      );
    }

-- If the stored rules read as blocks, the revision is the expected one and the ids are a
-- permutation of the ids of the blocks, the order is written, and the rules read as the same
-- blocks in the order of the ids.
pub reorder_rulesets_lem :
    (digest_ids : List Text → Text) (state : Data) (ids : List Text) (expected : Option Text)
    (blocks : List Block) (u v : Unit {0})
    → ruleset_blocks state.router.rules ≡ ok blocks
    → require_revision expected (some (digest_ids (block_ids blocks))) ≡ ok u
    → check_permutation (block_ids blocks) ids ≡ ok v
    → (ordered : List Block) × (changed : Bool) × (after : Data) × (reorder_rulesets digest_ids
          state ids expected
        ≡ ok ((ordered, changed), after))
      × Reordered state.router.rules after.router.rules ids blocks ordered
      × ((changed ≡ false) → ids ≡ block_ids blocks)
unfolding reorder_rulesets order_revision with_rules
reorder_rulesets_lem digest_ids state ids expected blocks u v e r h =
    let done = rows_in_order-Reordered state.router.rules blocks ids v e h in
    (
      picked blocks ids,
      not (ids == block_ids blocks),
      with_rules (rows_in_order blocks ids) state,
      rw (e, r, h, done.reads) refl,
      done,
      λ c. ground (arith, c),
    )
