-- ===== src/Routes/Shadow.antt =====
-- `shadowed_by` of routes.py: the rules that can never match, and the rule that covers each.
pub mod Reference
pub mod Unreachable
use anyhop.Prelude.{ℕ, suc, Option, none, some, List, [], ◌∷◌, Text, list_eq, nat_eq}
use anyhop.Prelude.Dict.{Dict, assign}
use anyhop.Prelude.Lists.{get_elem?}
use anyhop.Network.{Parser}
use anyhop.Rule.{Rule}
use anyhop.Routes.Index.{CoverIndex, new_index, add, first_cover}

-- `rules[covering]["id"]`; none where the position is out of range.
unfoldable pub note : Text → Option Rule → Dict Text Text → Option (Dict Text Text)
note id none out = none
note id (some covering) out = some (assign id covering.id out)

module _ (P : Parser) where
  unfoldable pub shadow_loop :
      List Rule → ℕ → List Rule → CoverIndex → Dict Text Text → Option (Dict Text Text)
  shadow_loop rules position [] index out = some out
  shadow_loop rules position (rule ∷ rest) index out = elim (first_cover P rule index) [
    | none ↦ shadow_loop rules (suc position) rest (add P position rule index) out
    | some covering ↦ elim (note rule.id (get_elem? rules covering) out) [
      | none ↦ none
      | some out' ↦ shadow_loop rules (suc position) rest (add P position rule index) out'
    ]
  ]

  unfoldable pub shadowed_by : List Rule → Option (Dict Text Text)
  shadowed_by rules = shadow_loop rules 0 rules new_index []
