-- ===== src/State/Signature/Telling.antt =====
-- About `config_signature` of state.py: what an equal signature says.
use mathlib.Core.Option
use anyhop.Prelude.{
  ℕ, Bool, ◌⊎◌, ◌≢◌, ◌≡◌, true, false, not, ◌||◌, ◌==◌, Option, none, some, List, [], ◌∷◌, Text,
  list_eq, nat_eq,
}
use anyhop.Prelude.Dict.{Dict, lookup}
use anyhop.Prelude.Lists.{In}
use anyhop.Rule.{Rule, MatcherType}
use anyhop.State.{Router, Provider, Channel}
use anyhop.State.RuleEdits.{is_empty}
use anyhop.State.Signature.{SignedChannel, SignedRouter, SignedRule, SignedProviders, signed}

-- The channel of a view.
abbrev pub view_at : SignedProviders → Text → Text → Option SignedChannel
view_at view p c = elim (lookup p view) [ none ↦ none | some channels ↦ lookup c channels ]

-- The channels of the provider that a dict has.
abbrev listed_at : Dict Text Provider → Text → Text → Option SignedChannel
listed_at d p c = elim (lookup p d) [
  | none ↦ none
  | some prov ↦ Option.map signed (lookup c prov.channels)
]

-- A list of providers that a dict has.
abbrev Listed : Dict Text Provider → List (Text × Provider) → Type 0
Listed d l = (k : Text) (prov : Provider) → In (k, prov) l → lookup k d ≡ some prov

-- What the engine is configured by: of a channel, and of a rule.
abbrev pub configured : Channel → ℕ × Text × Bool
configured ch = (ch.port, ch.wg, ch.enabled)

abbrev pub routed : List Rule → List (Text × MatcherType × Text × Text)
routed [] = []
routed (rule ∷ rules) = (rule.id, rule.type, rule.value, rule.target) ∷ routed rules

-- The routers serve the same; the switch of the local network counts only if one serves at all.
pub record SameService (a b : Router) : Type 0 where
  pub port : a.port ≡ b.port
  pub killswitch : a.killswitch ≡ b.killswitch
  pub tun : a.tun ≡ b.tun
  pub rules : routed a.rules ≡ routed b.rules
  pub lan_direct : (a.port ≢ 0) ⊎ (a.tun ≡ true) → a.lan_direct ≡ b.lan_direct

tupled : SignedChannel → ℕ × Text × Bool
tupled ch = (ch.port, ch.wg, ch.enabled)

untupled : List SignedRule → List (Text × MatcherType × Text × Text)
untupled [] = []
untupled (rule ∷ rules) = (rule.id, rule.type, rule.value, rule.target) ∷ untupled rules

-- The router as it is served, where none serves nothing.
served : Option SignedRouter → SignedRouter
served none = record { port = 0; killswitch = false; lan_direct = true; tun = false; rules = [] }
served (some router) = router

abbrev Serves : Router → Type 0
Serves router = (router.port ≢ 0) ⊎ (router.tun ≡ true)

abbrev is_serving : Router → Bool
is_serving router =
    not (router.port == 0) || not (is_empty router.rules) || router.killswitch || router.tun

-- What can be told of a router.
abbrev Told : SignedRouter → Router → Type 0
Told signed router =
    (signed.port ≡ router.port)
    × (signed.killswitch ≡ router.killswitch)
    × (signed.tun ≡ router.tun)
    × (untupled signed.rules ≡ routed router.rules)
    × (Serves router → signed.lan_direct ≡ router.lan_direct)
