-- ===== src/Routes/Shadow/Reference.antt =====
-- The lint by an index gives what the scan of all pairs of rules gives.
use anyhop.Prelude.{
  suc, inl, inr, Option-cases, ◌≡◌, refl, sym, ◌∙◌, Bool, Option, none, some, List, [], ◌∷◌, ◌++◌,
  append_assoc, arith, Text, list_eq, nat_eq,
}
use anyhop.Prelude.Dict.{Dict, assign, lookup}
use anyhop.Prelude.Lists.{
  length, length-concat, find-none, find, position, get_elem?-position, position-none, position-lt,
  position-concat,
}
use anyhop.Network.{Parser}
use anyhop.Rule.{Rule, is_geo}
use anyhop.Routes.Trie.{earliest}
use anyhop.Routes.Trie.Laws.{walk-new}
use anyhop.Routes.Index.{
  labels, prefixlens, probe_networks, CoverIndex, new_index, add, first_cover,
}
use anyhop.Routes.Index.Parts.{IsBelow, is_covered}
use anyhop.Routes.Index.Step.{first_cover-add}
use anyhop.Routes.Index.Invariant.{new_index-IsBelow, add-IsBelow}
use anyhop.Routes.Shadow.{note, shadow_loop, shadowed_by}

module _ (P : Parser) where
  -- The earliest of the earlier rules that covers a rule, by asking each in turn.
  unfoldable pub covering : List Rule → Rule → Option Rule
  covering earlier rule = find (λ a. is_covered P a rule) earlier

  unfoldable pub noted : Rule → Option Rule → Dict Text Text → Dict Text Text
  noted rule none out = out
  noted rule (some cover) out = assign rule.id cover.id out

  -- The scan of all pairs.
  unfoldable pub pairwise : List Rule → List Rule → Dict Text Text → Dict Text Text
  unfolding noted
  pairwise earlier [] out = out
  pairwise earlier (rule ∷ rest) out =
      pairwise (earlier ++ rule ∷ []) rest (noted rule (covering earlier rule) out)

  -- An index that answers for the rules added so far.
  record IsIndex (earlier : List Rule) (index : CoverIndex) : Type 0 where
    below : IsBelow (length earlier) index
    answers : (rule : Rule) → first_cover P rule index ≡ position (λ a. is_covered P a rule) earlier

  new_index-first_cover : (rule : Rule) → first_cover P rule new_index ≡ none
  unfolding first_cover prefixlens probe_networks lookup earliest is_geo
  new_index-first_cover rule = elim (Option-cases (P.network rule.value)) [
    | inl bad ↦ ground (arith, bad, walk-new (labels rule.value) none)
    | inr (net, good) ↦ ground (arith, good, walk-new (labels rule.value) none)
  ]

  new_index-IsIndex : IsIndex [] new_index
  unfolding position
  new_index-IsIndex = record { below = new_index-IsBelow 0; answers = new_index-first_cover }

  add-IsIndex :
      (earlier : List Rule) (rule : Rule) (index : CoverIndex)
      → IsIndex earlier index
      → IsIndex (earlier ++ rule ∷ []) (add P (length earlier) rule index)
  unfolding earliest
  add-IsIndex earlier rule index h = record {
    below = rw length-concat (add-IsBelow P (length earlier) rule index h.below);
    answers = λ q.
        rw (position-concat (λ a. is_covered P a q) earlier rule)
          (elim (Option-cases (position (λ a. is_covered P a q) earlier)) [
            | inl fresh ↦
                ground (
                  arith,
                  fresh,
                  h.answers q,
                  first_cover-add P (length earlier) rule q index h.below,
                )
            | inr (i, old) ↦ ground (
              arith,
              old,
              h.answers q,
              first_cover-add P (length earlier) rule q index h.below,
              position-lt (λ a. is_covered P a q) earlier i old,
            )
          ]);
  }

  shadow_loop-pairwise :
      (rules earlier rest : List Rule) (index : CoverIndex) (out : Dict Text Text)
      → rules ≡ earlier ++ rest
      → IsIndex earlier index
      → shadow_loop P rules (length earlier) rest index out ≡ some (pairwise earlier rest out)
  unfolding shadow_loop pairwise note noted covering
  shadow_loop-pairwise rules earlier [] index out e h = refl
  shadow_loop-pairwise rules earlier (rule ∷ rest) index out e h =
      let test : Rule → Bool = λ a. is_covered P a rule in
      let rest-loop : (out' : Dict Text Text)
          → shadow_loop P rules (suc (length earlier)) rest (add P (length earlier) rule index) out'
            ≡ some (pairwise (earlier ++ rule ∷ []) rest out') =
        λ out'. rw length-concat at (
          shadow_loop-pairwise rules (earlier ++ rule ∷ []) rest (add P (length earlier) rule index)
            out' (e ∙ sym (append_assoc earlier (rule ∷ []) rest))
            (add-IsIndex earlier rule index h)) in
      elim (Option-cases (position test earlier)) [
        | inl fresh ↦
            ground (arith, fresh, h.answers rule, position-none test earlier fresh, rest-loop out)
        | inr (i, old) ↦ elim (Option-cases (find test earlier)) [
          | inl lost ↦ cc (old, find-none test earlier lost)
          | inr (cover, found) ↦ ground (
            arith,
            old,
            found,
            e,
            h.answers rule,
            get_elem?-position test earlier (rule ∷ rest) i old,
            rest-loop (assign rule.id cover.id out),
          )
        ]
      ]

  -- Whatever the rules, the walk of the table with an index finishes, and maps each covered rule
  -- to the same earlier rule as the comparison of all pairs by `covers`.
  pub shadowed_by-pairwise : (rules : List Rule) → shadowed_by P rules ≡ some (pairwise [] rules [])
  unfolding shadowed_by
  shadowed_by-pairwise rules =
      shadow_loop-pairwise rules [] rules new_index [] refl new_index-IsIndex
