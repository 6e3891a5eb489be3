-- ===== src/Routes/Index/Parts.antt =====
-- The answer of `first_cover` as the earlier of the catch-all rule and the answer of one matcher family.
use mathlib.Core.List.{reverse-reverse}
use anyhop.Prelude.{
  ℕ, inl, inr, Option-cases, ◌<◌, ◌≡◌, refl, sym, ap, ◌∙◌, reverse, Bool, true, Option, none, some,
  List, [], ◌∷◌, arith, Text, ◌==◌, list_eq, nat_eq, pair_eq, option_eq, bool_eq, contains,
  if◌then◌else◌,
}
use anyhop.Prelude.Dict.{lookup}
use anyhop.Network.{Family, Parser, family_eq}
use anyhop.Rule.{MatcherType, domain_suffix, ip_cidr, Rule, matcher_eq, is_geo}
use anyhop.Routes.Domain.{split, starts_with, domain_suffix_matches}
use anyhop.Routes.Domain.Suffix.{split-cons, domain_suffix_matches-split, starts_with-reverse}
use anyhop.Routes.Match.{covers}
use anyhop.Routes.Trie.{Labels, earliest, index_of, insert, walk}
use anyhop.Routes.Trie.Laws.{stored, walk-earliest, walk-insert}
use anyhop.Routes.Index.{CoverIndex, prefixlens, labels, probe_networks, add, first_cover}
use anyhop.Routes.Index.Networks.{probe-earliest}

-- Every stored position lies below `n`, and every stored prefix length is probed.
pub record IsBelow (n : ℕ) (index : CoverIndex) : Type 0 where
  pub all_rule : (i : ℕ) → index.all_rule ≡ some i → i < n
  pub geo : (k : MatcherType × Text) (i : ℕ) → lookup k index.geo ≡ some i → i < n
  pub domains : (p : List Text) (i : ℕ) → stored p index.domains ≡ some i → i < n
  pub root : index_of index.domains ≡ none
  pub networks : (v : Family) (l a i : ℕ) → lookup (v, (l, a)) index.networks ≡ some i → i < n
  pub lengths :
      (v : Family) (l a i : ℕ)
      → lookup (v, (l, a)) index.networks ≡ some i
      → contains (prefixlens index v) l ≡ true

pub starts_with-labels :
    (s t : Text) → starts_with (labels t) (labels s) ≡ domain_suffix_matches s t
unfolding labels
starts_with-labels s t =
    starts_with-reverse (split s) (split t) ∙ sym (domain_suffix_matches-split s t)

pub labels-cons : (t : Text) → (l : Text) × (p : List Text) × (labels t ≡ l ∷ p)
unfolding labels
labels-cons t = go (labels t) refl
  where
    go : (ls : List Text) → labels t ≡ ls → (l : Text) × (p : List Text) × (labels t ≡ l ∷ p)
    go [] e = let (l, p, s) = split-cons t in cc (s, sym (reverse-reverse (split t)), ap reverse e)
    go (l ∷ p) e = (l, p, e)

-- Adding a domain to the trie, in terms of the texts.
pub walk-add :
    (s t : Text) (n : ℕ) (d : Labels)
    → index_of d ≡ none
    → ((i : ℕ) → stored (labels s) d ≡ some i → i < n)
    → walk (labels t) (insert (labels s) n d) none
      ≡ earliest (walk (labels t) d none) (if domain_suffix_matches s t then some n else none)
walk-add s t n d root below =
    let (l, p, e) = labels-cons s in
    let same : starts_with (labels t) (labels s) ≡ domain_suffix_matches s t =
      starts_with-labels s t in
    rw (← same, e) (walk-insert l p (labels t) n d (λ i f. below i (rw e f)) root)

module _ (P : Parser) where
  -- The answer of the rules that do not match everything.
  unfoldable pub family : Rule → CoverIndex → Option ℕ
  family rule index =
      if is_geo rule.type
      then lookup (rule.type, rule.value) index.geo
      else if rule.type == domain_suffix
      then walk (labels rule.value) index.domains none
      else if rule.type == ip_cidr
      then elim (P.network rule.value) [
        | none ↦ none
        | some net ↦
            probe_networks net.version net.prefixlen net.address index.networks
              (prefixlens index net.version) none
      ]
      else none

  pub first_cover-family :
      (rule : Rule) (index : CoverIndex)
      → first_cover P rule index ≡ earliest index.all_rule (family rule index)
  unfolding first_cover family earliest is_geo
  first_cover-family rule index = elim (Option-cases (P.network rule.value)) [
    | inl bad ↦
        ground (arith, bad, walk-earliest (labels rule.value) index.domains index.all_rule none)
    | inr (net, good) ↦ ground (
      arith,
      good,
      walk-earliest (labels rule.value) index.domains index.all_rule none,
      probe-earliest net.version net.prefixlen net.address index.networks
          (prefixlens index net.version) index.all_rule none,
    )
  ]

  unfoldable pub is_covered : Rule → Rule → Bool
  is_covered a b = covers P a b == some true

-- What a step must show: the position joins the candidates of the rules that are covered.
abbrev pub FamilyStep : Parser → ℕ → Rule → Rule → CoverIndex → Type 0
FamilyStep P n a b index =
    family P b (add P n a index)
    ≡ earliest (family P b index) (if is_covered P a b then some n else none)
