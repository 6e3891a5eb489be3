-- ===== src/Routes/Index.antt =====
-- `_CoverIndex` of routes.py: which of the rules added so far first covers a given matcher.
pub mod Networks
pub mod Parts
pub mod Plain
pub mod Cidr
pub mod Step
pub mod Invariant
use anyhop.Prelude.{
  ℕ, ◌≡◌, Bool, true, false, ◌&&◌, Option, none, some, List, [], ◌∷◌, reverse, Text, ltb, Eq, ◌==◌,
  list_eq, nat_eq, pair_eq, option_eq, contains, if◌then◌else◌,
}
use anyhop.Prelude.Dict.{Dict, lookup, set_default, kept}
use anyhop.Network.{Family, v4, v6, Network, Parser, supernet, family_eq}
use anyhop.Rule.{MatcherType, all, domain_suffix, ip_cidr, Rule, matcher_eq, is_geo}
use anyhop.Routes.Domain.{split}
use anyhop.Routes.Trie.{Labels, node, leaf, earliest, insert, walk}

-- `prefixlens4` and `prefixlens6` are the two sets of `_prefixlens`.
pub record CoverIndex : Type 0 where
  pub all_rule : Option ℕ
  pub geo : Dict (MatcherType × Text) ℕ
  pub domains : Labels
  pub networks : Dict (Family × (ℕ × ℕ)) ℕ
  pub prefixlens4 : List ℕ
  pub prefixlens6 : List ℕ

abbrev pub new_index : CoverIndex
new_index = record {
  all_rule = none;
  geo = [];
  domains = node none leaf;
  networks = [];
  prefixlens4 = [];
  prefixlens6 = [];
}

unfoldable pub prefixlens : CoverIndex → Family → List ℕ
prefixlens index version = elim version [ v4 ↦ index.prefixlens4 | v6 ↦ index.prefixlens6 ]

-- `set.add`
unfoldable pub add_length : ℕ → List ℕ → List ℕ
add_length len lens = if contains lens len then lens else len ∷ lens

unfoldable pub labels : Text → List Text
labels value = reverse (split value)

unfoldable pub add_network : ℕ → Network → CoverIndex → CoverIndex
unfolding add_length
add_network position net index =
    let key : Family × (ℕ × ℕ) = (net.version, (net.prefixlen, net.address)) in
    let noted : CoverIndex = record index { networks = set_default key position index.networks } in
    elim net.version [
      | v4 ↦ record noted { prefixlens4 = add_length net.prefixlen index.prefixlens4 }
      | v6 ↦ record noted { prefixlens6 = add_length net.prefixlen index.prefixlens6 }
    ]

-- `first_cover`, the loop over the prefix lengths that are present.
unfoldable pub probe_networks :
    Family → ℕ → ℕ → Dict (Family × (ℕ × ℕ)) ℕ → List ℕ → Option ℕ → Option ℕ
probe_networks version prefixlen address networks [] best = best
probe_networks version prefixlen address networks (length ∷ lengths) best =
    probe_networks version prefixlen address networks lengths (
      if ltb prefixlen length
      then best
      else earliest best (lookup (version, (length, supernet version length address)) networks))

module _ (P : Parser) where
  unfoldable pub add : ℕ → Rule → CoverIndex → CoverIndex
  unfolding kept labels
  add position rule index =
      if rule.type == all
      then record index { all_rule = some (kept index.all_rule position) }
      else if is_geo rule.type
      then record index { geo = set_default (rule.type, rule.value) position index.geo }
      else if rule.type == domain_suffix
      then record index { domains = insert (labels rule.value) position index.domains }
      else if rule.type == ip_cidr
      then elim (P.network rule.value) [ none ↦ index | some net ↦ add_network position net index ]
      else index

  unfoldable pub first_cover : Rule → CoverIndex → Option ℕ
  unfolding labels
  first_cover rule index =
      let best = index.all_rule in
      if best == some 0
      then some 0
      else if is_geo rule.type
      then earliest best (lookup (rule.type, rule.value) index.geo)
      else if rule.type == domain_suffix
      then walk (labels rule.value) index.domains best
      else if rule.type == ip_cidr
      then elim (P.network rule.value) [
        | none ↦ best
        | some net ↦
            probe_networks net.version net.prefixlen net.address index.networks
              (prefixlens index net.version) best
      ]
      else best
