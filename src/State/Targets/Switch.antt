-- ===== src/State/Targets/Switch.antt =====
-- About `set_channels_enabled` of state.py.
use anyhop.Prelude.{
  Bool, Option, none, some, ◌==◌, list_eq, nat_eq, pair_eq, bool_eq, if◌then◌else◌,
}
use anyhop.State.{Channel}
use anyhop.State.Edits.{switched}

-- What a switch of its channel leaves of a record: one that has the state already stays as it is.
abbrev pub switched_at : Bool → Option Channel → Option Channel
switched_at enabled none = none
switched_at enabled (some ch) = some (if ch.enabled == enabled then ch else switched enabled ch)
