-- ===== src/Rule.antt =====
-- The rows of `router.rules`: one matcher, a target, and the ruleset that the row belongs to.
use native.Mathlib.Decide.{ℕ_discrete}
use anyhop.Prelude.{Text, Option, Bool, true, false, Eq}

-- The values of the key `type`. `domain` is the legacy spelling; `other` is any further text.
pub data MatcherType : Type 0 where
  all domain domain_suffix ip_cidr geosite geoip : MatcherType
  other : Text → MatcherType

-- `ruleset_id` is the key `ruleset`, empty where the key is absent or empty, which the code never tells apart.
pub record Rule : Type 0 where
  pub id : Text
  pub type : MatcherType
  pub value : Text
  pub target : Text
  pub ruleset_id : Text
  pub ruleset_name : Option Text

MatcherType-discrete : Discrete MatcherType
MatcherType-discrete = hlevel ℕ_discrete

instance unfoldable pub matcher_eq : Eq MatcherType
unfolding MatcherType-discrete
matcher_eq = record { dec = MatcherType-discrete }

-- `GEO_TYPES`
unfoldable pub is_geo : MatcherType → Bool
is_geo geosite = true
is_geo geoip = true
is_geo _ = false
