-- ===== src/State/Rulesets/Blocks.antt =====
-- About the loop of `_ruleset_blocks` of state.py.
use mathlib.Core.Path.{subst}
use anyhop.Prelude.{
  inl, inr, Bool-cases, ◌≡◌, ◌≢◌, refl, sym, ap, ◌∙◌, false, List, [], ◌∷◌, ◌++◌, append-nil,
  append_assoc, arith, Text, ◌==◌, contains, list_eq, nat_eq,
}
use anyhop.Prelude.Lists.{All}
use anyhop.Result.{Result, ok, err}
use anyhop.Rule.{Rule}
use anyhop.State.{StateError}
use anyhop.State.Rulesets.{Block, block_name, new_block, extended, before, blocks_loop}

-- The rows of blocks in a row.
unfoldable pub flatten : List Block → List Rule
flatten [] = []
flatten (b ∷ blocks) = b.rules ++ flatten blocks

abbrev pub Belongs : Block → Rule → Type 0
Belongs b rule = (rule.ruleset_id ≡ b.id) × (rule.target ≡ b.target)

-- A block has an id, at least one row, the name of its first row, and rows that belong to it.
abbrev pub IsBlock : Block → Type 0
IsBlock b =
    (first : Rule) × (more : List Rule) × (b.rules ≡ first ∷ more)
    × (b.name ≡ block_name first)
    × (b.id ≢ [])
    × Belongs b first
    × All (Belongs b) more

-- Blocks with ids that are distinct, and not closed before.
abbrev pub Fits : List Text → List Block → Type 0
Fits closed [] = Unit
Fits closed (b ∷ blocks) = IsBlock b × (contains closed b.id ≡ false) × Fits (b.id ∷ closed) blocks

All-concat :
    (b : Block) (more : List Rule) (rule : Rule)
    → All (Belongs b) more
    → Belongs b rule
    → All (Belongs b) (more ++ rule ∷ [])
All-concat b [] rule all one = (one, tt)
All-concat b (r ∷ more) rule (now, all) one = (now, All-concat b more rule all one)

pub new_block-IsBlock : (rule : Rule) → rule.ruleset_id ≢ [] → IsBlock (new_block rule)
unfolding new_block
new_block-IsBlock rule ne = (rule, [], refl, refl, ne, (refl, refl), tt)

extended-IsBlock :
    (b : Block) (rule : Rule) → IsBlock b → Belongs b rule → IsBlock (extended b rule)
unfolding extended
extended-IsBlock b rule (first, more, rows, name, ne, head, all) one = (
  first,
  more ++ rule ∷ [],
  ap (λ l. l ++ rule ∷ []) rows,
  name,
  ne,
  head,
  All-concat b more rule all one,
)

extended-free :
    (b : Block) (rule : Rule) (closed : List Text)
    → contains closed b.id ≡ false
    → contains closed (extended b rule).id ≡ false
unfolding extended
extended-free b rule closed free = free

extended-rows :
    (b : Block) (rule : Rule) (rules : List Rule)
    → (extended b rule).rules ++ rules ≡ b.rules ++ rule ∷ rules
unfolding extended
extended-rows b rule rules = append_assoc b.rules (rule ∷ []) rules

extended-id : (b : Block) (rule : Rule) → b.id ≢ [] → (extended b rule).id ≢ []
unfolding extended
extended-id b rule ne = ne

extended-All :
    (b : Block) (rule : Rule) (more : List Rule)
    → All (Belongs b) more
    → All (Belongs (extended b rule)) more
unfolding extended
extended-All b rule [] all = tt
extended-All b rule (r ∷ more) (now, all) = (now, extended-All b rule more all)

new_block-free :
    (b : Block) (rule : Rule) (closed : List Text)
    → (rule.ruleset_id == b.id) ≡ false
    → contains closed rule.ruleset_id ≡ false
    → contains (b.id ∷ closed) (new_block rule).id ≡ false
unfolding new_block contains
new_block-free b rule closed other unseen = ground (arith, other, unseen)

new_block-rows : (rule : Rule) (rules : List Rule) → (new_block rule).rules ++ rules ≡ rule ∷ rules
unfolding new_block
new_block-rows rule rules = refl

one_row :
    (rule : Rule) (rules : List Rule) (closed : List Text) (current : Block)
    → current.id ≢ []
    → rule.ruleset_id ≡ current.id
    → rule.target ≡ current.target
    → blocks_loop (rule ∷ rules) closed current ≡ blocks_loop rules closed (extended current rule)
unfolding blocks_loop
one_row rule rules closed current ne id target = ground (arith, ne, id, target)

-- What `_ruleset_blocks` says of the blocks that it returns.
abbrev Reads : List Rule → List Text → Block → List Block → Type 0
Reads rules closed current blocks = Fits closed blocks × (flatten blocks ≡ current.rules ++ rules)

before-ok :
    (current : Block) (m : Result StateError (List Block)) (blocks : List Block)
    → before current m ≡ ok blocks
    → (rest : List Block) × (m ≡ ok rest) × (current ∷ rest ≡ blocks)
before-ok current (ok rest) blocks e = (rest, refl, cc)
before-ok current (err x) blocks e = absurd (cc)

pub blocks_loop_sound :
    (rules : List Rule) (closed : List Text) (current : Block) (blocks : List Block)
    → IsBlock current
    → contains closed current.id ≡ false
    → blocks_loop rules closed current ≡ ok blocks
    → Reads rules closed current blocks
unfolding blocks_loop flatten
blocks_loop_sound [] closed current blocks b free e =
    let same : current ∷ [] ≡ blocks = cc in
    subst (Reads [] closed current) same ((b, free, tt), refl)
blocks_loop_sound (rule ∷ rules) closed current blocks b free e =
    elim (Bool-cases (rule.ruleset_id == [])) [
      | inl empty ↦ absurd (ground (arith, empty, e))
      | inr named ↦ elim (Bool-cases (rule.ruleset_id == current.id)) [
        | inl mine ↦ elim (Bool-cases (rule.target == current.target)) [
          | inl same ↦
              let one : Belongs current rule = (ground (arith, mine), ground (arith, same)) in
              let (fits, rows) =
                blocks_loop_sound rules closed (extended current rule) blocks
                  (extended-IsBlock current rule b one) (extended-free current rule closed free)
                  (ground (arith, named, mine, same, e)) in
              (fits, rows ∙ extended-rows current rule rules)
          | inr mixed ↦ absurd (ground (arith, named, mine, mixed, e))
        ]
        | inr other ↦ elim (Bool-cases (contains closed rule.ruleset_id)) [
          | inl seen ↦ absurd (ground (arith, named, other, seen, e))
          | inr unseen ↦
              let (rest, tail, whole) =
                before-ok current (blocks_loop rules (current.id ∷ closed) (new_block rule)) blocks
                  (ground (arith, named, other, unseen, e)) in
              let (fits, rows) =
                blocks_loop_sound rules (current.id ∷ closed) (new_block rule) rest
                  (new_block-IsBlock rule (ground (arith, named)))
                  (new_block-free current rule closed other unseen) tail in
              subst (Reads (rule ∷ rules) closed current) whole
                ((b, free, fits), ap (λ l. current.rules ++ l) (rows ∙ new_block-rows rule rules))
        ]
      ]
    ]

-- The rows of a block, from the first on, read as one block.
abbrev pub with_more : Block → List Rule → Block
with_more b more = record b { rules = b.rules ++ more }

extended-with_more :
    (b : Block) (rule : Rule) (more : List Rule)
    → with_more (extended b rule) more ≡ with_more b (rule ∷ more)
unfolding extended
extended-with_more b rule more =
    ap (λ r. record b { rules = r }) (append_assoc b.rules (rule ∷ []) more)

pub same_run :
    (more tail : List Rule) (closed : List Text) (current : Block)
    → current.id ≢ []
    → All (Belongs current) more
    → blocks_loop (more ++ tail) closed current ≡ blocks_loop tail closed (with_more current more)
same_run [] tail closed current ne all =
    ap (λ r. blocks_loop tail closed (record current { rules = r }))
      (sym (append-nil current.rules))
same_run (rule ∷ more) tail closed current ne ((id, target), all) =
    one_row rule (more ++ tail) closed current ne id target
    ∙ same_run more tail closed (extended current rule) (extended-id current rule ne)
        (extended-All current rule more all)
    ∙ ap (blocks_loop tail closed) (extended-with_more current rule more)
