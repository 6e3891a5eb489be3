-- ===== src/State/Signature.antt =====
-- `config_signature` of state.py: what of the state the engine is configured by.
pub mod Steady
pub mod Telling
use anyhop.Prelude.{
  ℕ, Bool, true, false, not, ◌||◌, Option, none, some, List, [], ◌∷◌, Text, ◌==◌, nat_eq, list_eq,
  if◌then◌else◌,
}
use anyhop.Prelude.Dict.{Dict, items}
use anyhop.Prelude.Sorting.{sorted}
use anyhop.Rule.{Rule, MatcherType}
use anyhop.State.{Data, Provider, Channel, Router}
use anyhop.State.RuleEdits.{is_empty}

-- The keys of a channel that go into the digest. The code leaves `enabled` out where it is true.
pub record SignedChannel : Type 0 where
  pub port : ℕ
  pub wg : Text
  pub enabled : Bool

pub record SignedRule : Type 0 where
  pub id : Text
  pub type : MatcherType
  pub value : Text
  pub target : Text

pub record SignedRouter : Type 0 where
  pub port : ℕ
  pub killswitch : Bool
  pub lan_direct : Bool
  pub tun : Bool
  pub rules : List SignedRule

abbrev pub SignedProviders : Type 0
SignedProviders = Dict Text (Dict Text SignedChannel)

unfoldable pub signed : Channel → SignedChannel
signed ch = record { port = ch.port; wg = ch.wg; enabled = ch.enabled }

unfoldable pub signed_channels : Dict Text Channel → Dict Text SignedChannel
signed_channels [] = []
signed_channels ((cid, ch) ∷ channels) = (cid, signed ch) ∷ signed_channels channels

-- Providers without channels are left out.
unfoldable pub signed_providers : List (Text × Provider) → SignedProviders
signed_providers [] = []
signed_providers ((provider, prov) ∷ providers) =
    let rest = signed_providers providers in
    if is_empty (signed_channels (sorted prov.channels))
    then rest
    else (provider, signed_channels (sorted prov.channels)) ∷ rest

unfoldable pub signed_rules : List Rule → List SignedRule
signed_rules [] = []
signed_rules (rule ∷ rules) =
    record { id = rule.id; type = rule.type; value = rule.value; target = rule.target }
    ∷ signed_rules rules

-- none where the router serves nothing.
unfoldable pub signed_router : Router → Option SignedRouter
signed_router router =
    if not (router.port == 0) || not (is_empty router.rules) || router.killswitch || router.tun
    then some (record {
      port = router.port;
      killswitch = router.killswitch;
      lan_direct = router.lan_direct;
      tun = router.tun;
      rules = signed_rules router.rules;
    })
    else none

-- The digest is of the keys and the values in their order. It has the rule-set files too, which are
-- no part of this data.
unfoldable pub config_signature :
    {Digest : Type 0} → (SignedProviders → Option SignedRouter → Digest) → Data → Digest
config_signature digest state =
    digest (signed_providers (sorted (items state.providers))) (signed_router state.router)
