-- ===== src/Routes/Index/Plain.antt =====
-- Adding a geo category or a domain to the index.
use anyhop.Prelude.{
  ℕ, inl, inr, Option-cases, ◌≡◌, true, ◌&&◌, none, arith, Text, ◌==◌, list_eq, nat_eq, pair_eq,
  option_eq, bool_eq, if◌then◌else◌,
}
use anyhop.Prelude.Dict.{Dict, lookup, set_default, kept, lookup-set_default}
use anyhop.Network.{Parser, family_eq}
use anyhop.Rule.{MatcherType, domain_suffix, Rule, matcher_eq, is_geo}
use anyhop.Routes.Domain.{domain_suffix_matches}
use anyhop.Routes.Match.{covers}
use anyhop.Routes.Trie.{Labels, earliest, insert, walk}
use anyhop.Routes.Index.{CoverIndex, prefixlens, labels, add}
use anyhop.Routes.Index.Parts.{IsBelow, family, is_covered, FamilyStep, walk-add}

module _ (P : Parser) (n : ℕ) (a b : Rule) (index : CoverIndex) (h : IsBelow n index) where
  add-geo :
      is_geo a.type ≡ true
      → add P n a index ≡ record index { geo = set_default (a.type, a.value) n index.geo }
  unfolding add is_geo
  add-geo g = ground arith

  covers-geo : is_geo a.type ≡ true → is_covered P a b ≡ (a.type == b.type && a.value == b.value)
  unfolding is_covered covers is_geo
  covers-geo g = ground arith

  family-geo :
      (d : Dict (MatcherType × Text) ℕ)
      → family P b (record index { geo = d })
        ≡ (if is_geo b.type then lookup (b.type, b.value) d else family P b index)
  unfolding family prefixlens
  family-geo d = ground arith

  pub geo_step : is_geo a.type ≡ true → FamilyStep P n a b index
  unfolding earliest kept
  geo_step g =
      rw (add-geo g, covers-geo g, family-geo)
        (elim (Option-cases (lookup (a.type, a.value) index.geo)) [
          | inl fresh ↦ ground (
            arith,
            fresh,
            g,
            family-geo index.geo,
            lookup-set_default (b.type, b.value) (a.type, a.value) n index.geo,
          )
          | inr (i, old) ↦ ground (
            arith,
            old,
            g,
            family-geo index.geo,
            h.geo (a.type, a.value) i old,
            lookup-set_default (b.type, b.value) (a.type, a.value) n index.geo,
          )
        ])

  add-domain :
      a.type ≡ domain_suffix
      → add P n a index ≡ record index { domains = insert (labels a.value) n index.domains }
  unfolding add is_geo
  add-domain e = ground arith

  covers-domain :
      a.type ≡ domain_suffix
      → is_covered P a b ≡ (b.type == domain_suffix && domain_suffix_matches a.value b.value)
  unfolding is_covered covers is_geo
  covers-domain e = ground arith

  family-domain :
      (d : Labels)
      → family P b (record index { domains = d })
        ≡ (if b.type == domain_suffix then walk (labels b.value) d none else family P b index)
  unfolding family prefixlens is_geo
  family-domain d = ground arith

  pub domain_step : a.type ≡ domain_suffix → FamilyStep P n a b index
  unfolding earliest
  domain_step e =
      rw (add-domain e, covers-domain e, family-domain)
        (ground (
          arith,
          walk-add a.value b.value n index.domains h.root (h.domains (labels a.value)),
          family-domain index.domains,
        ))
