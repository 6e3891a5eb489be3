-- ===== src/State/Restore.antt =====
-- `restore_setup` of state.py, which replaces the whole setup by the one of a bundle.
pub mod Declared
pub mod Allocated
pub mod Counted
pub mod Contents
pub mod Replaced
use anyhop.Prelude.{
  ℕ, suc, ◌+◌, Bool, true, false, not, Option, none, some, List, [], ◌∷◌, ◌++◌, Text, ◌==◌, list_eq,
  nat_eq, if◌then◌else◌,
}
use anyhop.Prelude.Decimal.{show}
use anyhop.Prelude.Lists.{length}
use anyhop.Prelude.Dict.{Dict, assign, keys, items, has_key}
use anyhop.Result.{Result, ok, err, ◌>>=◌, ◌>>◌}
use anyhop.Rule.{Rule}
use anyhop.State.{Data, Provider, Channel, StateError, port_in_use, channel_at, set_channel}
use anyhop.State.RuleEdits.{Matcher}
use anyhop.State.Ports.{Holder, channel, entrypoint, Host, next_free_port}
use anyhop.State.Channels.{Ref, provider_refs}
use anyhop.State.Setup.{ChannelSpec, RulesetSpec, Specs, spec_channel, with_router_port}

-- `old_ports.get((provider, cid), 0)`
unfoldable pub old_port : Data → Text → Text → ℕ
old_port state provider cid = elim (channel_at state provider cid) [ none ↦ 0 | some ch ↦ ch.port ]

-- The declared port, or the one that the channel has.
unfoldable pub port_before : Data → Text → Text → ChannelSpec → ℕ
unfolding old_port
port_before state provider cid spec =
    if spec.port == 0 then old_port state provider cid else spec.port

unfoldable pub restored_channels : Data → Text → Dict Text ChannelSpec → Dict Text Channel
restored_channels state provider [] = []
restored_channels state provider ((cid, spec) ∷ specs) =
    (cid, spec_channel spec (port_before state provider cid spec))
    ∷ restored_channels state provider specs

unfoldable pub restored_providers : Data → Specs → Dict Text Provider
restored_providers state [] = []
restored_providers state ((provider, channels) ∷ specs) =
    (provider, record { channels = restored_channels state provider channels })
    ∷ restored_providers state specs

-- One round of the duplicate check.
unfoldable pub declare_port : Holder → ℕ → Dict ℕ Holder → Result StateError (Dict ℕ Holder)
declare_port holder port seen =
    if port == 0
    then ok seen
    else if has_key port seen
    then err (port_in_use port)
    else ok (assign port holder seen)

unfoldable pub declare_channels :
    Text → List (Text × Channel) → Dict ℕ Holder → Result StateError (Dict ℕ Holder)
declare_channels provider [] seen = ok seen
declare_channels provider ((cid, ch) ∷ rest) seen =
    declare_port (channel provider cid) ch.port seen >>= declare_channels provider rest

unfoldable pub declare_providers :
    List (Text × Provider) → Dict ℕ Holder → Result StateError (Dict ℕ Holder)
declare_providers [] seen = ok seen
declare_providers ((provider, prov) ∷ rest) seen =
    declare_channels provider (items prov.channels) seen >>= declare_providers rest

unfoldable pub require_distinct : Data → Result StateError (Dict ℕ Holder)
require_distinct state =
    declare_port entrypoint state.router.port [] >>= declare_providers (items state.providers)

module _ (host : Host) where
  -- A fresh port for a channel without one.
  unfoldable pub allocate_port : Ref → Data → Result StateError Data
  allocate_port (provider, cid) state = elim (channel_at state provider cid) [
    | none ↦ ok state
    | some ch ↦
        if ch.port == 0
        then (next_free_port host state >>= λ port.
            ok (set_channel provider cid (record ch { port = port }) state))
        else ok state
  ]

  unfoldable pub allocate_ports : List Ref → Data → Result StateError Data
  allocate_ports [] state = ok state
  allocate_ports (ref ∷ refs) state = allocate_port ref state >>= allocate_ports refs

unfoldable pub restored_rows : RulesetSpec → ℕ → List Matcher → List Rule → List Rule
restored_rows block i [] rules = rules
restored_rows block i ((type, value) ∷ matchers) rules = restored_rows block i matchers (
    rules
    ++ record {
      id = b'r' ∷ show (length rules + 1);
      type = type;
      value = value;
      target = block.target;
      ruleset_id = b'r' ∷ b's' ∷ show i;
      ruleset_name = some block.name;
    }
      ∷ [])

-- `for i, block in enumerate(rulesets, 1)`
unfoldable pub restored_rules : List RulesetSpec → ℕ → List Rule → List Rule
restored_rules [] i rules = rules
restored_rules (block ∷ blocks) i rules =
    restored_rules blocks (i + 1) (restored_rows block i block.matchers rules)

-- The data before ports are allocated.
unfoldable pub replaced : Data → Specs → ℕ → Data
replaced state providers router_port =
    with_router_port router_port (record state { providers = restored_providers state providers })

unfoldable pub with_rulesets : List RulesetSpec → Bool → Bool → Data → Data
with_rulesets rulesets killswitch lan_direct state = record state {
  router = record state.router {
    killswitch = killswitch;
    lan_direct = lan_direct;
    rules = restored_rules rulesets 1 [];
  };
}

unfoldable pub restore_setup :
    Host → Data → Specs → List RulesetSpec → Bool → Bool → ℕ → Result StateError Data
restore_setup host state providers rulesets killswitch lan_direct router_port =
    let fresh = replaced state providers router_port in
    require_distinct fresh
    >> allocate_ports host (provider_refs fresh (keys fresh.providers)) fresh
    >>= λ allocated. ok (with_rulesets rulesets killswitch lan_direct allocated)
