-- ===== src/Routes/Match.antt =====
-- `match_destination` and `covers` of routes.py. A rule-set of a geo category is what `RuleSet.match`
-- answers for a domain alone and for addresses alone.
pub mod Covers
use anyhop.Prelude.{
  Bool, true, false, not, ◌&&◌, ◌||◌, Option, none, some, List, [], ◌∷◌, Text, ◌==◌, list_eq,
  nat_eq, if◌then◌else◌,
}
use anyhop.Network.{Address, Network, Parser, in_network, subnet_of, family_eq}
use anyhop.Rule.{MatcherType, all, domain_suffix, ip_cidr, geosite, geoip, Rule, matcher_eq, is_geo}
use anyhop.Routes.Domain.{domain_suffix_matches}

pub record GeoSet : Type 0 where
  pub match_domain : Text → Bool
  pub match_ips : List Address → Bool

-- What a connection goes to, and the parsed categories.
pub record Destination : Type 0 where
  pub host : Option Text
  pub ips : List Address
  pub geo : MatcherType → Text → Option GeoSet

unfoldable pub any_in : Network → List Address → Bool
any_in net [] = false
any_in net (ip ∷ ips) = in_network ip net || any_in net ips

-- `bool(text)`, `bool(ips)`
unfoldable pub is_nonempty {ℓ} : {A : Type ℓ} → List A → Bool
is_nonempty [] = false
is_nonempty (x ∷ xs) = true

match_host : (Text → Bool) → Option Text → Bool
match_host test none = false
match_host test (some host) = test host

match_network : Option Network → List Address → Bool
match_network none ips = false
match_network (some net) ips = any_in net ips

match_geo : MatcherType → Option GeoSet → Destination → Bool
match_geo kind none d = false
match_geo kind (some set) d =
    if kind == geosite
    then match_host (λ host. is_nonempty host && set.match_domain host) d.host
    else is_nonempty d.ips && set.match_ips d.ips

module _ (P : Parser) where
  unfoldable pub match_destination : Rule → Destination → Bool
  unfolding match_host match_network match_geo
  match_destination rule d =
      if rule.type == all
      then true
      else if rule.type == domain_suffix
      then match_host (domain_suffix_matches rule.value) d.host
      else if rule.type == ip_cidr
      then match_network (P.network rule.value) d.ips
      else if is_geo rule.type
      then match_geo rule.type (d.geo rule.type rule.value) d
      else false

  -- `_subnet_of` of two networks, none where one of the texts is no network.
  unfoldable pub covers_network : Option Network → Option Network → Option Bool
  covers_network (some inner) (some outer) =
      some (inner.version == outer.version && subnet_of inner outer)
  covers_network _ _ = none

  -- none where the code raises `ValueError`: a CIDR that cannot be parsed.
  unfoldable pub covers : Rule → Rule → Option Bool
  unfolding covers_network
  covers a b =
      if a.type == all
      then some true
      else if b.type == all
      then some false
      else if is_geo a.type || is_geo b.type
      then some (a.type == b.type && a.value == b.value)
      else if a.type == domain_suffix && b.type == domain_suffix
      then some (domain_suffix_matches a.value b.value)
      else if a.type == ip_cidr && b.type == ip_cidr
      then covers_network (P.network b.value) (P.network a.value)
      else some false
