-- ===== src/State/Restore/Counted.antt =====
-- About the ids of the rules that `restore_setup` of state.py writes.
use mathlib.Core.Path.{subst}
use anyhop.Prelude.{
  ℕ, ◌+◌, ◌≤◌, inl, inr, ◌≡◌, refl, sym, List, [], ◌∷◌, ◌++◌, arith, list_eq, nat_eq, pair_eq,
}
use anyhop.Prelude.Decimal.{show, show-injective}
use anyhop.Prelude.Lists.{length, length-concat, In}
use anyhop.Rule.{Rule}
use anyhop.State.RuleEdits.{Matcher}
use anyhop.State.RuleEdits.Created.{DistinctIds, DistinctIds-concat, In-append}
use anyhop.State.Setup.{RulesetSpec}
use anyhop.State.Restore.{restored_rows, restored_rules}

-- The ids of the rows are numbered from 1 on.
abbrev pub Numbered : List Rule → Type 0
Numbered rules =
    (rule : Rule) → In rule rules → (n : ℕ) × (n ≤ length rules) × (rule.id ≡ b'r' ∷ show n)

abbrev pub Counted : List Rule → Type 0
Counted rules = DistinctIds rules × Numbered rules

Counted-concat :
    (rules : List Rule) (rule : Rule)
    → Counted rules
    → rule.id ≡ b'r' ∷ show (length rules + 1)
    → Counted (rules ++ rule ∷ [])
Counted-concat rules rule (distinct, numbered) id = (
  DistinctIds-concat rules rule distinct (λ other m same.
      let (n, below, name) = numbered other m in
      let number : show n ≡ show (length rules + 1) = cc in
      absurd (omega (arith, below, show-injective n (length rules + 1) number))),
  λ other m. elim (In-append rules (rule ∷ []) other m) [
    | inl old ↦
        let (n, below, name) = numbered other old in
        (n, omega (arith, below, length-concat rules rule), name)
    | inr (inl same) ↦ (
      length rules + 1,
      omega (arith, length-concat rules rule),
      subst (λ (r : Rule). r.id ≡ b'r' ∷ show (length rules + 1)) (sym same) id,
    )
    | inr (inr never) ↦ absurd never
  ],
)

restored_rows-Counted :
    (block : RulesetSpec) (i : ℕ) (matchers : List Matcher) (rules : List Rule)
    → Counted rules
    → Counted (restored_rows block i matchers rules)
unfolding restored_rows
restored_rows-Counted block i [] rules c = c
restored_rows-Counted block i ((type, value) ∷ matchers) rules c =
    restored_rows-Counted block i matchers _ (Counted-concat rules _ c refl)

pub restored_rules-Counted :
    (blocks : List RulesetSpec) (i : ℕ) (rules : List Rule)
    → Counted rules
    → Counted (restored_rules blocks i rules)
unfolding restored_rules
restored_rules-Counted [] i rules c = c
restored_rules-Counted (block ∷ blocks) i rules c =
    restored_rules-Counted blocks (i + 1) _ (restored_rows-Counted block i block.matchers rules c)
