-- ===== src/State/Rulesets/Readings.antt =====
-- About `_ruleset_blocks` of state.py: from the rows to the blocks and back.
use mathlib.Core.Path.{subst}
use anyhop.Prelude.{
  inl, inr, Bool-cases, ◌≡◌, ◌≢◌, refl, sym, ap, ◌∙◌, List, [], ◌∷◌, ◌++◌, arith, Text, ◌==◌,
  contains, list_eq, nat_eq,
}
use anyhop.Prelude.Lists.{All}
use anyhop.Result.{ok}
use anyhop.Rule.{Rule}
use anyhop.State.Rulesets.{Block, block_name, new_block, blocks_loop, ruleset_blocks}
use anyhop.State.Rulesets.Blocks.{
  flatten, Belongs, IsBlock, Fits, with_more, same_run, blocks_loop_sound, new_block-IsBlock,
}

-- If rules read as blocks, the blocks have distinct ids and their rows are the rules, in order.
pub ruleset_blocks-flatten :
    (rules : List Rule) (blocks : List Block)
    → ruleset_blocks rules ≡ ok blocks
    → Fits [] blocks × (flatten blocks ≡ rules)
unfolding ruleset_blocks flatten contains new_block
ruleset_blocks-flatten [] blocks e =
    let none_read : [] ≡ blocks = cc in
    subst (λ (l : List Block). Fits [] l × (flatten l ≡ [])) none_read (tt, refl)
ruleset_blocks-flatten (rule ∷ rules) blocks e = elim (Bool-cases (rule.ruleset_id == [])) [
  | inl empty ↦ absurd (ground (arith, empty, e))
  | inr named ↦
      blocks_loop_sound rules [] (new_block rule) blocks
        (new_block-IsBlock rule (ground (arith, named))) refl (ground (arith, named, e))
]

rebuilt :
    (b : Block) (first : Rule) (more : List Rule)
    → b.rules ≡ first ∷ more
    → b.name ≡ block_name first
    → Belongs b first
    → with_more (new_block first) more ≡ b
unfolding new_block
rebuilt b first more rows name (id, target) = cc

belong_to_new :
    (b : Block) (first : Rule) (more : List Rule)
    → Belongs b first
    → All (Belongs b) more
    → All (Belongs (new_block first)) more
unfolding new_block
belong_to_new b first [] one all = tt
belong_to_new b first (r ∷ more) (id, target) ((i, t), all) =
    ((i ∙ sym id, t ∙ sym target), belong_to_new b first more (id, target) all)

-- A block is read back from its rows in front of what follows.
read_block :
    (b : Block) (tail : List Rule) (closed : List Text) (blocks : List Block)
    → IsBlock b
    → blocks_loop tail closed b ≡ ok blocks
    → (first : Rule) × (more : List Rule) × (b.rules ≡ first ∷ more)
      × (first.ruleset_id ≡ b.id)
      × (blocks_loop (more ++ tail) closed (new_block first) ≡ ok blocks)
unfolding new_block
read_block b tail closed blocks (first, more, rows, name, ne, head, all) e = (
  first,
  more,
  rows,
  head.0,
  same_run more tail closed (new_block first) (λ z. ne (sym (head.0) ∙ z))
        (belong_to_new b first more head all)
      ∙ ap (blocks_loop tail closed) (rebuilt b first more rows name head)
      ∙ e,
)

blocks_loop_complete :
    (blocks : List Block) (closed : List Text) (current : Block)
    → current.id ≢ []
    → Fits (current.id ∷ closed) blocks
    → blocks_loop (flatten blocks) closed current ≡ ok (current ∷ blocks)
unfolding blocks_loop flatten contains
blocks_loop_complete [] closed current ne fits = refl
blocks_loop_complete (b ∷ blocks) closed current ne (is, free, fits) =
    let (f, m, r, n, id_ne, h, a) = is in
    let (first, more, rows, id, tail) =
      read_block b (flatten blocks) (current.id ∷ closed) (b ∷ blocks) is
        (blocks_loop_complete blocks (current.id ∷ closed) b id_ne fits) in
    rw rows (ground (arith, id, id_ne, free, tail))

read_first :
    (rule : Rule) (rules : List Rule)
    → rule.ruleset_id ≢ []
    → ruleset_blocks (rule ∷ rules) ≡ blocks_loop rules [] (new_block rule)
unfolding ruleset_blocks
read_first rule rules ne = ground (arith, ne)

-- Blocks with distinct ids are read back from their rows.
pub flatten-ruleset_blocks :
    (blocks : List Block) → Fits [] blocks → ruleset_blocks (flatten blocks) ≡ ok blocks
unfolding ruleset_blocks flatten
flatten-ruleset_blocks [] fits = refl
flatten-ruleset_blocks (b ∷ blocks) (is, free, fits) =
    let (f, m, r, n, id_ne, h, a) = is in
    let (first, more, rows, id, tail) =
      read_block b (flatten blocks) [] (b ∷ blocks) is
        (blocks_loop_complete blocks [] b id_ne fits) in
    ap (λ l. ruleset_blocks (l ++ flatten blocks)) rows
    ∙ read_first first (more ++ flatten blocks) (λ z. id_ne (sym id ∙ z))
    ∙ tail
