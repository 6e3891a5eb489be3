-- ===== src/State.antt =====
-- state.py: the raw dict behind `state.json`, as records with the optional keys that the code reads.
-- `wg` is a JSON object that the store only carries about, so its text stands for it; `probe` and
-- `reconnect` are none where the key is absent or holds an empty object, which readers treat alike.
-- The keys of geodata, backups and the service offer, which no operation here reads, are left out.
pub mod Access
pub mod Ports
pub mod Ids
pub mod Channels
pub mod Edits
pub mod Guard
pub mod Targets
pub mod Rulesets
pub mod RuleEdits
pub mod Reorder
pub mod Recovery
pub mod Setup
pub mod Restore
pub mod Refresh
pub mod Signature
use native.Mathlib.Decide.{ℕ_discrete}
use mathlib.Core.Bool.{Bool-discrete}
use anyhop.Prelude.{
  ℕ, Bool, true, false, not, Option, none, some, List, [], ◌∷◌, Text, Eq, ◌==◌, list_eq, nat_eq,
  if◌then◌else◌,
}
use anyhop.Prelude.Dict.{Dict, lookup, assign, pop}
use anyhop.Rule.{Rule}

-- One heartbeat result: the keys `ok`, `error`, `ip` and `latency_ms`.
pub record Probe : Type 0 where
  pub ok : Bool
  pub error : Option Text
  pub ip : Option Text
  pub latency_ms : Option ℕ

-- The bookkeeping of reconnect.py, with the defaults that `dict.get` gives for absent keys.
pub record Reconnect : Type 0 where
  pub fails : ℕ
  pub attempts : ℕ
  pub last_at : ℕ
  pub next_at : ℕ
  pub failed : Bool
  pub error : Option Text
  pub attempt_nonce : Option Text

Reconnect-discrete : Discrete Reconnect
Reconnect-discrete = hlevel (ℕ_discrete, Bool-discrete)

instance unfoldable pub reconnect_eq : Eq Reconnect
unfolding Reconnect-discrete
reconnect_eq = record { dec = Reconnect-discrete }

pub record Channel : Type 0 where
  pub country : Text
  pub city : Text
  pub port : ℕ
  pub port_explicit : Bool
  pub port_home : Option ℕ
  pub label : Text
  pub server : Text
  pub wg : Text
  pub probe : Option Probe
  pub reconnect : Option Reconnect
  pub enabled : Bool

pub record Provider : Type 0 where
  pub channels : Dict Text Channel

pub record Router : Type 0 where
  pub port : ℕ
  pub port_explicit : Bool
  pub port_home : Option ℕ
  pub killswitch : Bool
  pub lan_direct : Bool
  pub tun : Bool
  pub rules : List Rule

pub record Data : Type 0 where
  pub providers : Dict Text Provider
  pub router : Router

-- `_router_blank` and `_blank`
abbrev pub router_blank : Router
router_blank = record {
  port = 0;
  port_explicit = false;
  port_home = none;
  killswitch = false;
  lan_direct = true;
  tun = false;
  rules = [];
}

abbrev pub blank : Data
blank = record { providers = []; router = router_blank }

-- `((data["providers"].get(provider) or {}).get("channels") or {})`
unfoldable pub channels_of : Data → Text → Dict Text Channel
channels_of state provider = elim (lookup provider state.providers) [
  | none ↦ []
  | some prov ↦ prov.channels
]

-- The record that a read of `(provider, cid)` finds.
unfoldable pub channel_at : Data → Text → Text → Option Channel
unfolding channels_of
channel_at state provider cid = lookup cid (channels_of state provider)

-- `chans[cid] = ch` in the channels of a provider that is there.
unfoldable pub set_channel : Text → Text → Channel → Data → Data
set_channel provider cid ch state = elim (lookup provider state.providers) [
  | none ↦ state
  | some prov ↦ record state {
    providers = assign provider (record { channels = assign cid ch prov.channels }) state.providers;
  }
]

-- `chans.pop(cid, None)`
unfoldable pub drop_channel : Text → Text → Data → Data
drop_channel provider cid state = elim (lookup provider state.providers) [
  | none ↦ state
  | some prov ↦ record state {
    providers = assign provider (record { channels = pop cid prov.channels }) state.providers;
  }
]

-- The exceptions of the store, with what their message names.
pub data StateError : Type 0 where
  bad_port : ℕ → StateError
  port_in_use : ℕ → StateError
  no_free_port : StateError
  bad_port_base : StateError
  provider_missing : Text → StateError
  no_channel : Text → StateError
  channel_disabled : Text → StateError
  referenced : Dict Text (List Rule) → StateError
  revision_conflict : StateError
  empty_name : StateError
  no_matchers : StateError
  unknown_ruleset : Text → StateError
  no_ruleset : Text → StateError
  not_contiguous : Text → StateError
  mixed_targets : Text → StateError
  duplicate_ids : List Text → StateError
  unknown_ids : List Text → StateError
  missing_ids : List Text → StateError
  already_there : List Text → StateError
  no_block : StateError
