-- ===== src/Prelude/Sorting.antt =====
-- Python's `sorted` of the items of a dict whose keys are texts.
use mathlib.Core.Path.{◌≡◌, refl, ap, ◌∙◌}
use mathlib.Core.Logic.{inl, inr, ◌⊎◌}
use mathlib.Core.Bool.{Bool, true, false}
use mathlib.Core.Option.{some}
use mathlib.Core.List.{[], ◌∷◌}
use native.Mathlib.Omega.{arith}
use anyhop.Prelude.Tests.{ltb, ◌==◌, if◌then◌else◌, Text, Bool-cases, nat_eq, list_eq}
use anyhop.Prelude.Dict.{Dict, lookup}
use anyhop.Prelude.Lists.{In}

-- The order of texts by their code points.
unfoldable pub before : Text → Text → Bool
before [] [] = false
before [] (c ∷ t) = true
before (c ∷ s) [] = false
before (c ∷ s) (d ∷ t) = let rest = before s t in if c == d then rest else ltb c d

before_irrefl : (t : Text) → before t t ≡ false
unfolding before
before_irrefl [] = refl
before_irrefl (c ∷ t) = ground (arith, before_irrefl t)

module _ {V : Type 0} where
  unfoldable pub insert : Text → V → Dict Text V → Dict Text V
  insert k v [] = (k, v) ∷ []
  insert k v ((j, w) ∷ d) =
      let rest = insert k v d in if before j k then (j, w) ∷ rest else (k, v) ∷ (j, w) ∷ d

  unfoldable pub sorted : Dict Text V → Dict Text V
  sorted [] = []
  sorted ((k, v) ∷ d) = insert k v (sorted d)

  lookup-insert :
      (j k : Text) (v : V) (d : Dict Text V)
      → lookup j (insert k v d) ≡ (if k == j then some v else lookup j d)
  unfolding lookup insert
  lookup-insert j k v [] = refl
  lookup-insert j k v ((i, w) ∷ d) = elim (Bool-cases (before i k)) [
    | inl smaller ↦
        ground (arith, smaller, before_irrefl i, lookup-insert j k v d, ap (λ t. before i t))
    | inr here ↦ ground (arith, here)
  ]

  pub lookup-sorted : (j : Text) (d : Dict Text V) → lookup j (sorted d) ≡ lookup j d
  unfolding lookup sorted
  lookup-sorted j [] = refl
  lookup-sorted j ((k, v) ∷ d) =
      lookup-insert j k v (sorted d) ∙ ap (λ r. if k == j then some v else r) (lookup-sorted j d)

module _ {V : Type 0} where
  insert_sound :
      (k : Text) (v : V) (d : Dict Text V) (x : Text × V)
      → In x (insert k v d)
      → (x ≡ (k, v)) ⊎ In x d
  unfolding insert
  insert_sound k v [] x (inl e) = inl e
  insert_sound k v [] x (inr never) = absurd never
  insert_sound k v ((j, w) ∷ d) x m = elim (Bool-cases (before j k)) [
    | inl smaller ↦ elim (rw smaller at m) [
      | inl e ↦ inr (inl e)
      | inr later ↦ elim (insert_sound k v d x later) [ inl e ↦ inl e | inr old ↦ inr (inr old) ]
    ]
    | inr here ↦ rw here at m
  ]

  pub sorted_sound : (d : Dict Text V) (x : Text × V) → In x (sorted d) → In x d
  unfolding sorted
  sorted_sound [] x m = m
  sorted_sound ((k, v) ∷ d) x m = elim (insert_sound k v (sorted d) x m) [
    | inl e ↦ inl e
    | inr old ↦ inr (sorted_sound d x old)
  ]

module _ {V W : Type 0} (f : V → W) where
  unfoldable pub map_values : Dict Text V → Dict Text W
  map_values [] = []
  map_values ((k, v) ∷ d) = (k, f v) ∷ map_values d

  map_values-insert :
      (k : Text) (v : V) (d : Dict Text V)
      → map_values (insert k v d) ≡ insert k (f v) (map_values d)
  unfolding map_values insert
  map_values-insert k v [] = refl
  map_values-insert k v ((j, w) ∷ d) = ground (arith, map_values-insert k v d)

  pub map_values-sorted : (d : Dict Text V) → map_values (sorted d) ≡ sorted (map_values d)
  unfolding map_values sorted
  map_values-sorted [] = refl
  map_values-sorted ((k, v) ∷ d) =
      map_values-insert k v (sorted d) ∙ ap (insert k (f v)) (map_values-sorted d)
