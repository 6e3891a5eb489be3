-- ===== src/Routes/Index/Networks.antt =====
-- What the probe of the prefix lengths answers once a network has been added.
use anyhop.Prelude.{
  ℕ, inl, inr, Bool-cases, Option-cases, ◌<◌, ◌≡◌, refl, Bool, true, ◌&&◌, Option, none, some, List,
  [], ◌∷◌, arith, ltb, leb, ◌==◌, nat_eq, pair_eq, contains, if◌then◌else◌,
}
use anyhop.Prelude.Dict.{Dict, lookup, set_default, kept, lookup-set_default}
use anyhop.Network.{Family, supernet, family_eq}
use anyhop.Routes.Trie.{earliest}
use anyhop.Routes.Trie.Laws.{earliest_assoc, earliest_comm, earliest_rotate}
use anyhop.Routes.Index.{probe_networks, add_length}

abbrev Networks : Type 0
Networks = Dict (Family × (ℕ × ℕ)) ℕ

module _ (v : Family) (p a : ℕ) where
  -- What one prefix length contributes.
  pub found_at : Networks → ℕ → Option ℕ
  found_at nets len = if ltb p len then none else lookup (v, (len, supernet v len a)) nets

  probe-cons :
      (nets : Networks) (len : ℕ) (lens : List ℕ) (best : Option ℕ)
      → probe_networks v p a nets (len ∷ lens) best
        ≡ probe_networks v p a nets lens (earliest best (found_at nets len))
  unfolding probe_networks found_at earliest
  probe-cons nets len lens best = ground arith

  pub probe-earliest :
      (nets : Networks) (lens : List ℕ) (x y : Option ℕ)
      → probe_networks v p a nets lens (earliest x y)
        ≡ earliest x (probe_networks v p a nets lens y)
  unfolding probe_networks
  probe-earliest nets [] x y = refl
  probe-earliest nets (len ∷ lens) x y =
      rw (probe-cons nets len lens (earliest x y), probe-cons nets len lens y, earliest_assoc)
        (probe-earliest nets lens x (earliest y (found_at nets len)))

  module _ (u : Family) (l o n : ℕ) where
    -- Whether the added network has the probed address, at a length that is probed.
    unfoldable pub holds_it : Bool
    holds_it = v == u && leb l p && supernet v l a == o

    found_at-set :
        (nets : Networks) (len : ℕ)
        → ((i : ℕ) → lookup (u, (l, o)) nets ≡ some i → i < n)
        → found_at (set_default (u, (l, o)) n nets) len
          ≡ earliest (found_at nets len) (if l == len && holds_it then some n else none)
    unfolding found_at holds_it kept earliest
    found_at-set nets len h = elim (Option-cases (lookup (u, (l, o)) nets)) [
      | inl fresh ↦
          ground (arith, fresh, lookup-set_default (v, (len, supernet v len a)) (u, (l, o)) n nets)
      | inr (i, old) ↦
          ground (
            arith,
            old,
            h i old,
            lookup-set_default (v, (len, supernet v len a)) (u, (l, o)) n nets,
          )
    ]

    found_at-fresh :
        (nets : Networks)
        → ((i : ℕ) → lookup (v, (l, supernet v l a)) nets ≡ some i → ⊥)
        → found_at nets l ≡ none
    unfolding found_at
    found_at-fresh nets h = elim (Option-cases (lookup (v, (l, supernet v l a)) nets)) [
      | inl gone ↦ ground (arith, gone)
      | inr (i, e) ↦ absurd (h i e)
    ]

    probe-set :
        (nets : Networks) (lens : List ℕ) (best : Option ℕ)
        → ((i : ℕ) → lookup (u, (l, o)) nets ≡ some i → i < n)
        → probe_networks v p a (set_default (u, (l, o)) n nets) lens best
          ≡ earliest
              (probe_networks v p a nets lens best)
              (if contains lens l && holds_it then some n else none)
    unfolding contains earliest probe_networks
    probe-set nets [] best h = refl
    probe-set nets (len ∷ lens) best h =
        let added : Networks = set_default (u, (l, o)) n nets in
        let new : Option ℕ = if l == len && holds_it then some n else none in
        rw (probe-cons added len lens best, probe-cons nets len lens best, found_at-set nets len h)
          (rw
            (
              probe-set nets lens (earliest best (earliest (found_at nets len) new)) h,
              earliest_rotate best (found_at nets len) new,
              probe-earliest nets lens new (earliest best (found_at nets len)),
            )
            (ground arith))

    -- The length of the added network is probed from now on.
    pub probe-add :
        (nets : Networks) (lens : List ℕ) (best : Option ℕ)
        → ((i : ℕ) → lookup (u, (l, o)) nets ≡ some i → i < n)
        → ((b i : ℕ) → lookup (v, (l, b)) nets ≡ some i → contains lens l ≡ true)
        → probe_networks v p a
            (set_default (u, (l, o)) n nets)
            (if v == u then add_length l lens else lens)
            best
          ≡ earliest (probe_networks v p a nets lens best) (if holds_it then some n else none)
    unfolding add_length earliest holds_it
    probe-add nets lens best h known = elim (Bool-cases (contains lens l)) [
      | inl listed ↦ ground (arith, probe-set nets lens best h, listed)
      | inr fresh ↦
          let added : Networks = set_default (u, (l, o)) n nets in
          ground (
            arith,
            fresh,
            found_at-fresh nets (λ i e. cc (fresh, known (supernet v l a) i e)),
            found_at-set nets l h,
            probe-cons added l lens best,
            probe-earliest added lens (found_at added l) best,
            earliest_comm best (found_at added l),
            probe-set nets lens best h,
          )
    ]
