-- ===== src/Routes/Trie/Laws.antt =====
-- What is stored at each path of the trie, and how an insertion changes the answer of a walk.
use anyhop.Prelude.{
  ℕ, inl, inr, Option-cases, ◌<◌, ◌≡◌, refl, sym, ap, ◌∙◌, Option, none, some, List, [], ◌∷◌, Text,
  arith, ◌==◌, list_eq, nat_eq, if◌then◌else◌,
}
use anyhop.Prelude.Dict.{kept}
use anyhop.Routes.Domain.{starts_with}
use anyhop.Routes.Trie.{
  Labels, node, Children, leaf, child, earliest, index_of, find, put, found_or_new, insert, walk,
}

-- The position stored at a path.
unfoldable pub stored : List Text → Labels → Option ℕ
stored [] here = index_of here
stored (label ∷ labels) (node index children) = elim (find label children) [
  | none ↦ none
  | some below ↦ stored labels below
]

find-put :
    (k l : Text) (t : Labels) (c : Children)
    → find k (put l t c) ≡ (if l == k then some t else find k c)
unfolding find put
find-put k l t leaf = refl
find-put k l t (child name old rest) = ground (arith, find-put k l t rest)

pub stored-new : (p : List Text) → stored p (node none leaf) ≡ none
unfolding stored index_of find
stored-new [] = refl
stored-new (l ∷ p) = refl

pub walk-new : (q : List Text) (best : Option ℕ) → walk q (node none leaf) best ≡ best
unfolding walk find
walk-new [] best = refl
walk-new (l ∷ q) best = refl

pub stored-insert :
    (p q : List Text) (n : ℕ) (t : Labels)
    → stored q (insert p n t) ≡ (if p == q then some (kept (stored q t) n) else stored q t)
unfolding stored insert index_of kept found_or_new
stored-insert [] [] n (node i c) = ground arith
stored-insert [] (m ∷ q) n (node i c) = ground arith
stored-insert (l ∷ p) [] n (node i c) = ground arith
stored-insert (l ∷ p) (m ∷ q) n (node i c) = ground (
  arith,
  find-put m l (insert p n (found_or_new (find l c))) c,
  stored-insert p q n (found_or_new (find l c)),
  stored-new q,
)

pub earliest_assoc : (x y z : Option ℕ) → earliest (earliest x y) z ≡ earliest x (earliest y z)
unfolding earliest
earliest_assoc x y z = ground arith

pub earliest_comm : (x y : Option ℕ) → earliest x y ≡ earliest y x
unfolding earliest
earliest_comm x y = ground arith

pub earliest_rotate : (x y z : Option ℕ) → earliest x (earliest y z) ≡ earliest z (earliest x y)
unfolding earliest
earliest_rotate x y z = ground arith

pub earliest-none : (x : Option ℕ) → earliest none x ≡ x
unfolding earliest
earliest-none x = ground arith

walk-found :
    (m : Text) (q : List Text) (t : Labels) (i : Option ℕ) (c : Children) (best : Option ℕ)
    → find m c ≡ some t
    → walk (m ∷ q) (node i c) best ≡ walk q t (earliest best (index_of t))
unfolding walk
walk-found m q t i c best h = ground (arith, h)

walk-lost :
    (m : Text) (q : List Text) (i : Option ℕ) (c : Children) (best : Option ℕ)
    → find m c ≡ none
    → walk (m ∷ q) (node i c) best ≡ best
unfolding walk
walk-lost m q i c best h = ground (arith, h)

walk-same :
    (m : Text) (q : List Text) (i : Option ℕ) (c d : Children) (best : Option ℕ)
    → find m c ≡ find m d
    → walk (m ∷ q) (node i c) best ≡ walk (m ∷ q) (node i d) best
unfolding walk
walk-same m q i c d best h = ground (arith, h)

pub walk-earliest :
    (q : List Text) (t : Labels) (x y : Option ℕ)
    → walk q t (earliest x y) ≡ earliest x (walk q t y)
unfolding walk
walk-earliest [] t x y = refl
walk-earliest (l ∷ q) (node i c) x y = elim (Option-cases (find l c)) [
  | inl absent ↦ rw (walk-lost l q i c (earliest x y) absent, walk-lost l q i c y absent)
  | inr (below, found) ↦
      walk-found l q below i c (earliest x y) found
      ∙ (rw earliest_assoc (walk-earliest q below x (earliest y (index_of below)))
          ∙ sym (ap (earliest x) (walk-found l q below i c y found)))
]

walk-nil : (t : Labels) (best : Option ℕ) → walk [] t best ≡ best
unfolding walk
walk-nil t best = refl

pub index_of-insert :
    (l : Text) (p : List Text) (n : ℕ) (t : Labels) → index_of (insert (l ∷ p) n t) ≡ index_of t
unfolding insert index_of
index_of-insert l p n (node i c) = refl

walk_after :
    (q : List Text) (t : Labels) (b x : Option ℕ)
    → walk q t (earliest b x) ≡ earliest (walk q t b) x
walk_after q t b x = rw (earliest_comm b x, walk-earliest q t x b) (earliest_comm x (walk q t b))

-- The children of the node where the path ends are as before.
children-insert :
    (q : List Text) (n : ℕ) (t : Labels) (best : Option ℕ)
    → walk q (insert [] n t) best ≡ walk q t best
unfolding walk insert
children-insert [] n (node i c) best = refl
children-insert (m ∷ q) n (node i c) best = refl

-- A walk that counts the node where it starts.
abbrev visit : List Text → Labels → Option ℕ → Option ℕ
visit q t best = walk q t (earliest best (index_of t))

visit-insert :
    (p q : List Text) (n : ℕ) (t : Labels) (best : Option ℕ)
    → ((i : ℕ) → stored p t ≡ some i → i < n)
    → visit q (insert p n t) best
      ≡ earliest (visit q t best) (if starts_with q p then some n else none)
unfolding insert stored index_of kept earliest starts_with found_or_new
visit-insert [] q n (node none c) best h = ground (
  arith,
  walk_after q (node none c) best (some n),
  children-insert q n (node none c) (earliest best (some n)),
)
visit-insert [] q n (node (some j) c) best h = ground (
  arith,
  h j refl,
  walk_after q (node (some j) c) best (some j),
  children-insert q n (node (some j) c) (earliest best (some j)),
)
visit-insert (l ∷ p) [] n (node i c) best h = ground (
  arith,
  walk-nil (node i (put l (insert p n (found_or_new (find l c))) c)) (earliest best i),
  walk-nil (node i c) (earliest best i),
)
visit-insert (l ∷ p) (m ∷ q) n (node i c) best h =
    let below = found_or_new (find l c) in
    let start = earliest best i in
    let fresh : (j : ℕ) → stored p below ≡ some j → j < n =
      λ j e. ground (arith, h j, stored-new p) in
    ground (
      arith,
      find-put m l (insert p n below) c,
      walk-found m q (insert p n below) i (put l (insert p n below) c) start,
      walk-found m q below i c start,
      walk-lost m q i c start,
      walk-same m q i c (put l (insert p n below) c) start,
      visit-insert p q n below start fresh,
      walk-new q start,
    )

-- What the walk answers after a rule has been added that ends below the root.
pub walk-insert :
    (l : Text) (p q : List Text) (n : ℕ) (t : Labels)
    → ((i : ℕ) → stored (l ∷ p) t ≡ some i → i < n)
    → index_of t ≡ none
    → walk q (insert (l ∷ p) n t) none
      ≡ earliest (walk q t none) (if starts_with q (l ∷ p) then some n else none)
unfolding earliest
walk-insert l p q n t h root =
    ground (arith, index_of-insert l p n t, visit-insert (l ∷ p) q n t none h)
