-- ===== src/Routes/Trie.antt =====
-- `_Labels` and `_earliest` of routes.py: the trie of reversed domain labels, and the two walks of
-- `_CoverIndex` over it.
pub mod Laws
use anyhop.Prelude.{
  ℕ, Option, none, some, List, [], ◌∷◌, Text, ltb, ◌==◌, list_eq, nat_eq, if◌then◌else◌,
}
use anyhop.Prelude.Dict.{kept}

unfoldable pub earliest : Option ℕ → Option ℕ → Option ℕ
earliest current none = current
earliest none (some candidate) = some candidate
earliest (some current) (some candidate) =
    if ltb candidate current then some candidate else some current

-- A node: the position of the rule that ends here, and the children.
mutual
  pub data Labels : Type 0 where
    node : Option ℕ → Children → Labels

  pub data Children : Type 0 where
    leaf : Children
    child : Text → Labels → Children → Children

unfoldable pub index_of : Labels → Option ℕ
index_of (node index children) = index

-- `children.get(label)`
unfoldable pub find : Text → Children → Option Labels
find label leaf = none
find label (child name below rest) = if name == label then some below else find label rest

-- `children[label] = below`
unfoldable pub put : Text → Labels → Children → Children
put label below leaf = child label below leaf
put label below (child name old rest) =
    if name == label then child name below rest else child name old (put label below rest)

-- The node that `children.setdefault(label, _Labels())` returns.
unfoldable pub found_or_new : Option Labels → Labels
found_or_new none = node none leaf
found_or_new (some below) = below

-- The walk of `add`. The first rule to end at a node keeps it.
unfoldable pub insert : List Text → ℕ → Labels → Labels
unfolding kept
insert [] position (node index children) = node (some (kept index position)) children
insert (label ∷ labels) position (node index children) =
    node index (put label (insert labels position (found_or_new (find label children))) children)

-- The walk of `first_cover`.
unfoldable pub walk : List Text → Labels → Option ℕ → Option ℕ
walk [] here best = best
walk (label ∷ labels) (node index children) best = elim (find label children) [
  | none ↦ best
  | some below ↦ walk labels below (earliest best (index_of below))
]
