-- ===== src/Prelude/Dict.antt =====
-- Python dicts as association lists in insertion order. A lookup finds the first entry of its key;
-- `pop` removes every entry, and a real dict holds at most one.
use anyhop.Prelude.Tests.{contains, Eq, ◌==◌, if◌then◌else◌, Option-cases}
use anyhop.Prelude.Lists.{In}
use mathlib.Core.Logic.{inl, inr}
use mathlib.Core.Path.{◌≡◌, refl}
use mathlib.Core.Bool.{Bool, true, false}
use mathlib.Core.Option.{Option, none, some}
use mathlib.Core.List.{List, [], ◌∷◌}
use native.Mathlib.Omega.{arith}

abbrev pub Dict {ℓ κ} : Type ℓ → Type κ → Type (ℓ ⊔ κ)
Dict K V = List (K × V)

unfoldable pub keys {ℓ κ} : {K : Type ℓ} {V : Type κ} → Dict K V → List K
keys [] = []
keys ((k, v) ∷ d) = k ∷ keys d

-- The value that stays when a key is set only if it is absent.
unfoldable pub kept {ℓ} : {V : Type ℓ} → Option V → V → V
kept none v = v
kept (some w) v = w

module _ {ℓ κ} {K : Type ℓ} {V : Type κ} ⦃e : Eq K⦄ where
  unfoldable pub lookup : K → Dict K V → Option V
  lookup k [] = none
  lookup k ((j, v) ∷ d) = if j == k then some v else lookup k d

  -- `d[k] = v`
  unfoldable pub assign : K → V → Dict K V → Dict K V
  assign k v [] = (k, v) ∷ []
  assign k v ((j, w) ∷ d) = if j == k then (j, v) ∷ d else (j, w) ∷ assign k v d

  -- `d.setdefault(k, v)`
  unfoldable pub set_default : K → V → Dict K V → Dict K V
  set_default k v [] = (k, v) ∷ []
  set_default k v ((j, w) ∷ d) = if j == k then (j, w) ∷ d else (j, w) ∷ set_default k v d

  -- `d.pop(k, None)`
  unfoldable pub pop : K → Dict K V → Dict K V
  pop k [] = []
  pop k ((j, v) ∷ d) = let rest = pop k d in if j == k then rest else (j, v) ∷ rest

  pub lookup-assign :
      (j k : K) (v : V) (d : Dict K V)
      → lookup j (assign k v d) ≡ (if k == j then some v else lookup j d)
  unfolding lookup assign
  lookup-assign j k v [] = refl
  lookup-assign j k v ((i, w) ∷ d) = ground (arith, lookup-assign j k v d)

  pub lookup-set_default :
      (j k : K) (v : V) (d : Dict K V)
      → lookup j (set_default k v d) ≡ (if k == j then some (kept (lookup j d) v) else lookup j d)
  unfolding lookup set_default kept
  lookup-set_default j k v [] = refl
  lookup-set_default j k v ((i, w) ∷ d) = ground (arith, lookup-set_default j k v d)

  pub lookup-pop :
      (j k : K) (d : Dict K V) → lookup j (pop k d) ≡ (if k == j then none else lookup j d)
  unfolding lookup pop
  lookup-pop j k [] = ground arith
  lookup-pop j k ((i, w) ∷ d) = ground (arith, lookup-pop j k d)

module _ {K V : Type 0} ⦃e : Eq K⦄ where
  -- `d.items()`: each key with the value that a read of the key finds.
  unfoldable pub entries : Dict K V → List K → List (K × V)
  entries d [] = []
  entries d (k ∷ ks) =
      let rest = entries d ks in elim (lookup k d) [ none ↦ rest | some v ↦ (k, v) ∷ rest ]

  unfoldable pub items : Dict K V → List (K × V)
  unfolding entries
  items d = entries d (keys d)

  unfoldable pub has_key : K → Dict K V → Bool
  has_key k d = elim (lookup k d) [ none ↦ false | some _ ↦ true ]

  pub entries-none :
      (d : Dict K V) (k : K) (ks : List K) → lookup k d ≡ none → entries d (k ∷ ks) ≡ entries d ks
  unfolding entries
  entries-none d k ks absent = rw (absent, entries) refl

  pub entries-some :
      (d : Dict K V) (k : K) (v : V) (ks : List K)
      → lookup k d ≡ some v
      → entries d (k ∷ ks) ≡ (k, v) ∷ entries d ks
  unfolding entries
  entries-some d k v ks found = rw (found, entries) refl

  entries_sound :
      (d : Dict K V) (ks : List K) (k : K) (v : V) → In (k, v) (entries d ks) → lookup k d ≡ some v
  unfolding entries
  entries_sound d [] k v h = absurd h
  entries_sound d (j ∷ ks) k v h = elim (Option-cases (lookup j d)) [
    | inl absent ↦ entries_sound d ks k v (rw (absent, entries) at h)
    | inr (w, found) ↦ ground (arith, found, h, entries_sound d ks k v)
  ]

  entries_complete :
      (d : Dict K V) (ks : List K) (k : K) (v : V)
      → In k ks
      → lookup k d ≡ some v
      → In (k, v) (entries d ks)
  unfolding entries
  entries_complete d [] k v m h = absurd m
  entries_complete d (j ∷ ks) k v m h = elim (Option-cases (lookup j d)) [
    | inl absent ↦ ground (arith, absent, h, m, entries_complete d ks k v)
    | inr (w, found) ↦ ground (arith, found, h, m, entries_complete d ks k v)
  ]

  pub In-keys : (d : Dict K V) (k : K) (v : V) → lookup k d ≡ some v → In k (keys d)
  unfolding lookup keys
  In-keys [] k v h = cc
  In-keys ((j, w) ∷ d) k v h = ground (arith, h, In-keys d k v)

  pub items_sound : (d : Dict K V) (k : K) (v : V) → In (k, v) (items d) → lookup k d ≡ some v
  unfolding items
  items_sound d k v h = entries_sound d (keys d) k v h

  pub items_complete : (d : Dict K V) (k : K) (v : V) → lookup k d ≡ some v → In (k, v) (items d)
  unfolding items
  items_complete d k v h = entries_complete d (keys d) k v (In-keys d k v h) h

  pub contains-keys : (d : Dict K V) (k : K) → has_key k d ≡ true → contains (keys d) k ≡ true
  unfolding has_key lookup keys contains
  contains-keys [] k h = cc
  contains-keys ((j, w) ∷ d) k h = ground (arith, h, contains-keys d k)
