-- ===== src/Prelude/Lists.antt =====
-- Lists measured and searched by native numbers, and predicates on lists.
use Prim.Native.Nat.{ℕ, zero, suc, ◌+◌, ◌<◌}
use mathlib.Core.Path.{◌≡◌, refl}
use mathlib.Core.Logic.{◌⊎◌}
use mathlib.Core.Bool.{Bool, false, ◌||◌}
use mathlib.Core.Option.{Option, none, some}
use mathlib.Core.List.{List, [], ◌∷◌, ◌++◌}
use native.Mathlib.Omega.{arith}
use anyhop.Prelude.Tests.{if◌then◌else◌}

module _ {ℓ} {A : Type ℓ} where
  abbrev pub length : List A → ℕ
  length [] = 0
  length (x ∷ xs) = suc (length xs)

  unfoldable pub get_elem? : List A → ℕ → Option A
  get_elem? [] i = none
  get_elem? (x ∷ xs) zero = some x
  get_elem? (x ∷ xs) (suc i) = get_elem? xs i

  -- The first element that passes a test, and its position.
  unfoldable pub take : ℕ → List A → List A
  take zero xs = []
  take (suc n) [] = []
  take (suc n) (x ∷ xs) = x ∷ take n xs

  unfoldable pub drop : ℕ → List A → List A
  drop zero xs = xs
  drop (suc n) [] = []
  drop (suc n) (x ∷ xs) = drop n xs

  unfoldable pub find : (A → Bool) → List A → Option A
  find test [] = none
  find test (x ∷ xs) = if test x then some x else find test xs

  unfoldable pub position : (A → Bool) → List A → Option ℕ
  position test [] = none
  position test (x ∷ xs) =
      if test x then some 0 else elim (position test xs) [ none ↦ none | some i ↦ some (suc i) ]

  -- `[x for x in xs if test(x)]`
  unfoldable pub select : (A → Bool) → List A → List A
  select test [] = []
  select test (x ∷ xs) = let rest = select test xs in if test x then x ∷ rest else rest

  unfoldable pub any_of : (A → Bool) → List A → Bool
  any_of test [] = false
  any_of test (x ∷ xs) = test x || any_of test xs

  pub length-append : (xs ys : List A) → length (xs ++ ys) ≡ length xs + length ys
  length-append [] ys = omega arith
  length-append (x ∷ xs) ys = omega (arith, length-append xs ys)

  pub length-concat : (xs : List A) (y : A) → length (xs ++ y ∷ []) ≡ suc (length xs)
  length-concat xs y = omega (arith, length-append xs (y ∷ []))

  -- What stands at the position that was found.
  pub get_elem?-position :
      (test : A → Bool) (xs ys : List A) (i : ℕ)
      → position test xs ≡ some i
      → get_elem? (xs ++ ys) i ≡ find test xs
  unfolding get_elem? find position
  get_elem?-position test [] ys i h = cc
  get_elem?-position test (x ∷ xs) ys zero h = ground (arith, h)
  get_elem?-position test (x ∷ xs) ys (suc i) h = ground (arith, h, get_elem?-position test xs ys i)

  pub position-none :
      (test : A → Bool) (xs : List A) → position test xs ≡ none → find test xs ≡ none
  unfolding find position
  position-none test [] h = refl
  position-none test (x ∷ xs) h = ground (arith, h, position-none test xs)

  pub find-none : (test : A → Bool) (xs : List A) → find test xs ≡ none → position test xs ≡ none
  unfolding find position
  find-none test [] h = refl
  find-none test (x ∷ xs) h = ground (arith, h, find-none test xs)

  pub position-lt :
      (test : A → Bool) (xs : List A) (i : ℕ) → position test xs ≡ some i → i < length xs
  unfolding position
  position-lt test [] i h = cc
  position-lt test (x ∷ xs) zero h = omega arith
  position-lt test (x ∷ xs) (suc i) h = ground (arith, h, position-lt test xs i)

  -- Searching a list with one more element behind it.
  pub position-concat :
      (test : A → Bool) (xs : List A) (y : A)
      → position test (xs ++ y ∷ []) ≡ elim (position test xs) [
        | none ↦ if test y then some (length xs) else none
        | some i ↦ some i
      ]
  unfolding position
  position-concat test [] y = refl
  position-concat test (x ∷ xs) y = ground (arith, position-concat test xs y)

-- Membership by recursion, which the tactics read.
abbrev pub In : {A : Type 0} → A → List A → Type 0
In a [] = ⊥
In a (x ∷ xs) = (a ≡ x) ⊎ In a xs

abbrev pub All {ℓ κ} : {A : Type ℓ} → (A → Type κ) → List A → Type κ
All P [] = Unit
All P (x ∷ xs) = P x × All P xs

pub All-map {ℓ κ μ} :
    {A : Type ℓ} {P : A → Type κ} {Q : A → Type μ} (xs : List A)
    → ((x : A) → P x → Q x)
    → All P xs
    → All Q xs
All-map [] f all = tt
All-map (x ∷ xs) f (now, all) = (f x now, All-map xs f all)

pub All-split {ℓ κ} :
    {A : Type ℓ} (P : A → Type κ) (xs : List A) (y : A) → All P (xs ++ y ∷ []) → All P xs × P y
All-split P [] y (last, _) = (tt, last)
All-split P (x ∷ xs) y (now, all) = let (left, last) = All-split P xs y all in ((now, left), last)

pub All-append {ℓ κ} :
    {A : Type ℓ} (P : A → Type κ) (xs ys : List A) → All P xs → All P ys → All P (xs ++ ys)
All-append P [] ys left right = right
All-append P (x ∷ xs) ys (now, left) right = (now, All-append P xs ys left right)
