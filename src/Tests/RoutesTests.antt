-- ===== src/Tests/RoutesTests.antt =====
-- The lint and the matcher of routes.py at a small rule table.
use anyhop.Prelude.{
  String, ℕ, ◌<◌, ◌≡◌, refl, true, Option, none, some, List, [], ◌∷◌, arith, Text, codes, ◌==◌,
  contains, list_eq, nat_eq, bool_eq, option_eq, pair_eq, if◌then◌else◌,
}
use anyhop.Prelude.Dict.{lookup, assign, set_default, kept}
use anyhop.Prelude.Lists.{get_elem?, find}
use anyhop.Network.{v4, Network, IsNetwork, Parser, supernet, block_size, family_eq}
use anyhop.Rule.{MatcherType, domain_suffix, ip_cidr, Rule, matcher_eq, is_geo}
use anyhop.Routes.Domain.{domain_suffix_matches, split, add_char}
use anyhop.Routes.Trie
use anyhop.Routes.Trie.{earliest}
use anyhop.Routes.Index.{
  first_cover, probe_networks, prefixlens, add, add_network, add_length, labels,
}
use anyhop.Routes.Match.{Destination, covers, match_destination}
use anyhop.Routes.Match.Covers.{covers_sound}
use anyhop.Routes.Shadow.{shadowed_by, shadow_loop, note}
use anyhop.Routes.Shadow.Reference.{pairwise, covering, shadowed_by-pairwise}
use anyhop.Routes.Index.Parts.{is_covered}
use anyhop.Routes.Shadow.Unreachable.{has_id, first_match, shadowed_by-lookup, shadowed_unreachable}

abbrev ten_eight : Network
ten_eight = record { version = v4; prefixlen = 8; address = 167772160 }

abbrev ten_one_sixteen : Network
ten_one_sixteen = record { version = v4; prefixlen = 16; address = 167837696 }

table : Text → Option Network
table t =
    if t == codes "10.0.0.0/8"
    then some ten_eight
    else if t == codes "10.1.0.0/16"
    then some ten_one_sixteen
    else none

table-IsNetwork : (t : Text) (n : Network) → table t ≡ some n → IsNetwork n
unfolding table supernet block_size
table-IsNetwork t n h = ground arith

abbrev parser : Parser
parser = record { network = table; network-IsNetwork = table-IsNetwork }

abbrev row : String → MatcherType → String → Rule
row id type value = record {
  id = codes id;
  type = type;
  value = codes value;
  target = codes "direct";
  ruleset_id = codes "rs1";
  ruleset_name = none;
}

abbrev wide : Rule
wide = row "r1" ip_cidr "10.0.0.0/8"

abbrev narrow : Rule
narrow = row "r2" ip_cidr "10.1.0.0/16"

abbrev site : Rule
site = row "r3" domain_suffix "example.org"

abbrev sub : Rule
sub = row "r4" domain_suffix "www.example.org"

abbrev visit : Destination
visit = record { host = some (codes "www.example.org"); ips = []; geo = λ k v. none }

abbrev rules : List Rule
rules = wide ∷ narrow ∷ site ∷ sub ∷ []

run : shadowed_by parser rules ≡ some ((codes "r2", codes "r1") ∷ (codes "r4", codes "r3") ∷ [])
unfolding shadowed_by shadow_loop first_cover option_eq is_geo matcher_eq table list_eq nat_eq
    probe_networks prefixlens add add_network contains earliest lookup set_default pair_eq
    block_size family_eq supernet assign kept get_elem? add_char split add_length labels note
    Trie.find Trie.found_or_new Trie.index_of Trie.insert Trie.put Trie.walk
run = refl

covers_sound_example : match_destination parser site visit ≡ true
unfolding covers match_destination is_geo matcher_eq list_eq domain_suffix_matches nat_eq
covers_sound_example = covers_sound parser site sub visit refl refl

shadowed_by-pairwise_example : shadowed_by parser rules ≡ some (pairwise parser [] rules [])
shadowed_by-pairwise_example = shadowed_by-pairwise parser rules

shadowed_by-lookup_example : ◌≡◌ {A = Option Text} (some (codes "r3")) (some (codes "r3"))
unfolding has_id list_eq nat_eq lookup covering find is_covered covers option_eq bool_eq is_geo
    matcher_eq domain_suffix_matches
shadowed_by-lookup_example =
    shadowed_by-lookup parser (wide ∷ narrow ∷ site ∷ []) [] sub
      ((codes "r2", codes "r1") ∷ (codes "r4", codes "r3") ∷ []) refl refl run

shadowed_unreachable_example : (i : ℕ) × (first_match parser visit rules ≡ some i) × (i < 3)
unfolding has_id list_eq nat_eq lookup match_destination is_geo matcher_eq domain_suffix_matches
shadowed_unreachable_example =
    shadowed_unreachable parser (wide ∷ narrow ∷ site ∷ []) [] sub
      ((codes "r2", codes "r1") ∷ (codes "r4", codes "r3") ∷ []) visit refl refl run (λ e. cc) refl
