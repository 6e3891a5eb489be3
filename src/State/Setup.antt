-- ===== src/State/Setup.antt =====
-- The operations of the `Store` of state.py on a whole setup: the merge of a bundle.
pub mod Merging
pub mod Disabled
pub mod Merged
use anyhop.Prelude.{
  ℕ, zero, Bool, true, false, not, ◌&&◌, ◌||◌, Option, none, some, List, [], ◌∷◌, ◌++◌, Text, ◌==◌,
  contains, list_eq, nat_eq, bool_eq, pair_eq, option_eq, if◌then◌else◌,
}
use anyhop.Prelude.Dict.{Dict, lookup, assign, set_default, pop, keys, items, has_key}
use anyhop.Result.{Result, ok, err, ◌>>=◌, ◌>>◌, require}
use anyhop.Rule.{Rule}
use anyhop.State.{
  Data, Provider, Channel, Router, StateError, port_in_use, channels_of, channel_at, set_channel,
}
use anyhop.State.Rulesets.{next_ruleset_id}
use anyhop.State.RuleEdits.{Matcher, make_rules, with_rules}
use anyhop.State.Ports.{Holder, channel, Host, used_ports}
use anyhop.State.Channels.{
  Ref, Outcome, require_unreferenced, ensure_channel_target, add_provider, port_for, repointed,
}

-- A channel of a bundle. Port 0 is no declared port; `wg` is none where the spec has no parameters,
-- and `enabled` where it does not state the switch.
pub record ChannelSpec : Type 0 where
  pub country : Text
  pub city : Text
  pub label : Text
  pub server : Text
  pub port : ℕ
  pub wg : Option Text
  pub enabled : Option Bool

pub record RulesetSpec : Type 0 where
  pub name : Text
  pub target : Text
  pub matchers : List Matcher

abbrev pub Specs : Type 0
Specs = Dict Text (Dict Text ChannelSpec)

-- The counts of an import, which the code keeps as lists of names.
pub record Summary : Type 0 where
  pub providers_added : List Text
  pub created : List Ref
  pub updated : List Ref
  pub unchanged : List Ref
  pub rulesets_added : List Text

abbrev pub no_summary : Summary
no_summary = record {
  providers_added = [];
  created = [];
  updated = [];
  unchanged = [];
  rulesets_added = [];
}

-- `spec["wg"] or {}`, the empty object as its text.
unfoldable pub wg_of : ChannelSpec → Text
wg_of spec = elim spec.wg [ none ↦ b'{' ∷ b'}' ∷ [] | some wg ↦ wg ]

-- `.get("enabled", True)` of a channel that may be absent.
unfoldable pub enabled_at : Data → Ref → Bool
enabled_at state (provider, cid) = elim (channel_at state provider cid) [
  | none ↦ true
  | some ch ↦ ch.enabled
]

unfoldable pub disabling_channels : Data → Text → List (Text × ChannelSpec) → List Ref
unfolding enabled_at
disabling_channels state provider [] = []
disabling_channels state provider ((cid, spec) ∷ specs) =
    (if spec.enabled == some false && enabled_at state (provider, cid)
      then (provider, cid) ∷ []
      else [])
    ++ disabling_channels state provider specs

unfoldable pub disabling : Data → List (Text × Dict Text ChannelSpec) → List Ref
disabling state [] = []
disabling state ((provider, channels) ∷ specs) =
    disabling_channels state provider (items channels) ++ disabling state specs

-- What the switch of a spec says of a channel that is there or not.
unfoldable pub resolved : Option Bool → Bool → Bool
resolved none current = current
resolved (some enabled) current = enabled

-- The record of a channel that the bundle adds.
unfoldable pub spec_channel : ChannelSpec → ℕ → Channel
unfolding wg_of resolved
spec_channel spec port = record {
  country = spec.country;
  city = spec.city;
  port = port;
  port_explicit = not (spec.port == 0);
  port_home = none;
  label = spec.label;
  server = spec.server;
  wg = wg_of spec;
  probe = none;
  reconnect = none;
  enabled = resolved spec.enabled true;
}

unfoldable pub is_unchanged : ChannelSpec → Channel → Bool
unfolding wg_of resolved
is_unchanged spec ch =
    ch.country == spec.country
    && ch.city == spec.city
    && ch.server == spec.server
    && ch.wg == wg_of spec
    && ch.enabled == resolved spec.enabled ch.enabled
    && (spec.label == [] || ch.label == spec.label)
    && (spec.port == 0 || (ch.port == spec.port && ch.port_explicit))

-- The record of a channel that the bundle changes.
unfoldable pub merged : ChannelSpec → ℕ → Channel → Channel
unfolding wg_of resolved
merged spec port ch = record ch {
  country = spec.country;
  city = spec.city;
  server = spec.server;
  wg = wg_of spec;
  port = port;
  port_explicit = ch.port_explicit || not (spec.port == 0);
  label = if spec.label == [] then ch.label else spec.label;
  probe = if resolved spec.enabled ch.enabled then ch.probe else none;
  reconnect = none;
  enabled = resolved spec.enabled ch.enabled;
}

module _ (host : Host) where
  unfoldable pub merge_channel : Text → Text → ChannelSpec → Summary → Data → Outcome Summary
  merge_channel provider cid spec summary state = elim (channel_at state provider cid) [
    | none ↦ port_for host state spec.port >>= λ port. ok (
      record summary { created = summary.created ++ (provider, cid) ∷ [] },
      set_channel provider cid (spec_channel spec port) state,
    )
    | some ch ↦
        if is_unchanged spec ch
        then ok (record summary { unchanged = summary.unchanged ++ (provider, cid) ∷ [] }, state)
        else (repointed state provider cid ch spec.port >>= λ port. ok (
          record summary { updated = summary.updated ++ (provider, cid) ∷ [] },
          set_channel provider cid (merged spec port ch) state,
        ))
  ]

  unfoldable pub merge_channels :
      Text → List (Text × ChannelSpec) → Summary → Data → Outcome Summary
  merge_channels provider [] summary state = ok (summary, state)
  merge_channels provider ((cid, spec) ∷ specs) summary state =
      merge_channel provider cid spec summary state >>= λ (summary, state).
      merge_channels provider specs summary state

  unfoldable pub note_provider : Text → Summary → Data → Summary
  note_provider provider summary state = elim (lookup provider state.providers) [
    | none ↦ record summary { providers_added = summary.providers_added ++ provider ∷ [] }
    | some _ ↦ summary
  ]

  unfoldable pub merge_providers :
      List (Text × Dict Text ChannelSpec) → Summary → Data → Outcome Summary
  merge_providers [] summary state = ok (summary, state)
  merge_providers ((provider, channels) ∷ specs) summary state =
      merge_channels provider (items channels) (note_provider provider summary state)
        (add_provider state provider)
      >>= λ (summary, state). merge_providers specs summary state

unfoldable pub ensure_targets : Data → List RulesetSpec → Result StateError (Unit {0})
ensure_targets state [] = ok tt
ensure_targets state (block ∷ blocks) =
    ensure_channel_target state block.target >> ensure_targets state blocks

-- The rules with the blocks behind them.
unfoldable pub append_blocks : List RulesetSpec → List Rule → List Rule
append_blocks [] rules = rules
append_blocks (block ∷ blocks) rules =
    append_blocks blocks
      (rules ++ make_rules rules block.target (next_ruleset_id rules) block.name block.matchers [])

unfoldable pub names_of : List RulesetSpec → List Text
names_of [] = []
names_of (block ∷ blocks) = block.name ∷ names_of blocks

unfoldable pub toggled : Option Bool → Option Bool → Data → Data
unfolding resolved
toggled killswitch lan_direct state = record state {
  router = record state.router {
    killswitch = resolved killswitch state.router.killswitch;
    lan_direct = resolved lan_direct state.router.lan_direct;
  };
}

unfoldable pub require_router_port : Data → ℕ → Result StateError (Unit {0})
require_router_port state port =
    require
      (port == 0
        || port == state.router.port
        || not (has_key port (pop state.router.port (used_ports state))))
      (port_in_use port)

unfoldable pub with_router_port : ℕ → Data → Data
with_router_port port state =
    if port == 0
    then state
    else record state { router = record state.router { port = port; port_explicit = true } }

unfoldable pub merge_setup :
    Host → Data → Specs → List RulesetSpec → Option Bool → Option Bool → ℕ → Outcome Summary
unfolding disabling names_of
merge_setup host state providers rulesets killswitch lan_direct router_port =
    require_unreferenced state (disabling state (items providers))
    >> merge_providers host (items providers) no_summary state
    >>= λ (summary, merged_state).
        ensure_targets merged_state rulesets
        >> (let ruled =
              toggled killswitch lan_direct
                (with_rules (append_blocks rulesets merged_state.router.rules) merged_state) in
            require_router_port ruled router_port
            >> ok (
              record summary { rulesets_added = names_of rulesets },
              with_router_port router_port ruled,
            ))
