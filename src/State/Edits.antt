-- ===== src/State/Edits.antt =====
-- The operations of the `Store` of state.py that change channels which are there: the switch, the
-- label, the server, and what the daemon publishes about a channel.
pub mod Observed
use mathlib.Core.Option.{Option}
use anyhop.Prelude.{
  ℕ, Bool, true, false, not, ◌&&◌, ◌||◌, none, some, List, [], ◌∷◌, ◌++◌, Text, ◌==◌, list_eq,
  nat_eq, bool_eq, option_eq, if◌then◌else◌,
}
use anyhop.Prelude.Dict.{Dict}
use anyhop.Result.{Result, ok, err, ◌>>=◌, ◌>>◌, require}
use anyhop.State.{
  Data, Channel, Probe, Reconnect, StateError, revision_conflict, channel_at, set_channel,
  reconnect_eq,
}
use anyhop.State.Channels.{Ref, Outcome, require_unreferenced}

-- What a change of the store does with the channel of a ref: nothing where there is none.
unfoldable pub modify : Ref → (Channel → Channel) → Data → Data
modify (provider, cid) change state = elim (channel_at state provider cid) [
  | none ↦ state
  | some ch ↦ set_channel provider cid (change ch) state
]

-- The channel without what the daemon writes; the revision is a digest of it.
unfoldable pub intent : Channel → Channel
intent ch = record ch { probe = none; reconnect = none }

unfoldable pub revision_of : (Ref → Channel → Text) → Data → Ref → Option Text
unfolding intent
revision_of digest state (provider, cid) = elim (channel_at state provider cid) [
  | none ↦ none
  | some ch ↦ some (digest (provider, cid) (intent ch))
]

-- `_require_revision`
unfoldable pub require_revision : Option Text → Option Text → Result StateError (Unit {0})
require_revision none current = ok tt
require_revision (some expected) current = require (some expected == current) revision_conflict

unfoldable pub require_revisions :
    (Ref → Channel → Text) → Data → List (Ref × Text) → Result StateError (Unit {0})
require_revisions digest state [] = ok tt
require_revisions digest state ((ref, expected) ∷ more) =
    require_revision (some expected) (revision_of digest state ref)
    >> require_revisions digest state more

unfoldable pub switched : Bool → Channel → Channel
switched enabled ch =
    if enabled
    then record ch { enabled = true }
    else record ch { enabled = false; probe = none; reconnect = none }

unfoldable pub switch_channels : Bool → List Ref → Data → List Ref → List Ref × Data
switch_channels enabled [] state changed = (changed, state)
switch_channels enabled (ref ∷ refs) state changed = elim (channel_at state ref.0 ref.1) [
  | none ↦ switch_channels enabled refs state changed
  | some ch ↦
      switch_channels enabled refs
        (if ch.enabled == enabled
          then state
          else set_channel ref.0 ref.1 (switched enabled ch) state)
        (if ch.enabled == enabled then changed else changed ++ ref ∷ [])
]

unfoldable pub set_channels_enabled :
    (Ref → Channel → Text) → Data → List Ref → Bool → List (Ref × Text) → Outcome (List Ref)
set_channels_enabled digest state refs enabled expected =
    require_revisions digest state expected
    >> (if enabled then ok tt else require_unreferenced state refs)
    >> ok (switch_channels enabled refs state [])

unfoldable pub set_label : Data → Ref → Text → Data
set_label state ref label = modify ref (λ ch. record ch { label = label }) state

unfoldable pub with_server : Text → Option Text → Text → Text → Channel → Channel
with_server [] wg country city ch = record ch { server = []; reconnect = none }
with_server (c ∷ server) none country city ch = record ch {
  server = c ∷ server;
  country = country;
  city = city;
  reconnect = none;
}
with_server (c ∷ server) (some wg) country city ch = record ch {
  server = c ∷ server;
  country = country;
  city = city;
  wg = wg;
  reconnect = none;
}

unfoldable pub set_channel_server :
    (Ref → Channel → Text)
    → Data
    → Ref
    → Text
    → Option Text
    → Text
    → Text
    → Option Text
    → Result StateError Data
set_channel_server digest state ref server wg country city expected =
    require_revision expected (revision_of digest state ref)
    >> ok (modify ref (with_server server wg country city) state)

unfoldable pub set_probe : Data → Ref → Option Probe → Data
set_probe state ref probe = modify ref (λ ch. record ch { probe = probe }) state

unfoldable pub set_reconnect : Data → Ref → Option Reconnect → Data
set_reconnect state ref reconnect = modify ref (λ ch. record ch { reconnect = reconnect }) state

-- `_channel_fingerprint_raw`: a digest of what a background result was observed under.
unfoldable pub fingerprint : (Bool → ℕ → Text → Text) → Channel → Text
fingerprint digest ch = digest ch.enabled ch.port ch.wg

-- The channel where the guard of a background result holds.
unfoldable pub guarded : (Channel → Bool) → Data → Ref → Option Channel
guarded guard state (provider, cid) = elim (channel_at state provider cid) [
  | none ↦ none
  | some ch ↦ if guard ch then some ch else none
]

module _ (digest : Bool → ℕ → Text → Text) where
  unfoldable pub set_probes : List (Ref × Text × Option Probe) → Data → List Ref → List Ref × Data
  set_probes [] state applied = (applied, state)
  set_probes ((ref, expected, result) ∷ updates) state applied =
      elim (guarded (λ ch. fingerprint digest ch == expected) state ref) [
        | none ↦ set_probes updates state applied
        | some ch ↦
            set_probes updates (set_channel ref.0 ref.1 (record ch { probe = result }) state)
              (applied ++ ref ∷ [])
      ]

  unfoldable pub claimable : Text → Option Reconnect → Channel → Bool
  claimable expected_digest expected ch =
      fingerprint digest ch == expected_digest && ch.reconnect == expected

  unfoldable pub prepare_reconnects :
      List (Ref × Text × Option Reconnect × Option Reconnect) → Data → List Ref → List Ref × Data
  prepare_reconnects [] state applied = (applied, state)
  prepare_reconnects ((ref, print, expected, replacement) ∷ updates) state applied =
      elim (guarded (claimable print expected) state ref) [
        | none ↦ prepare_reconnects updates state applied
        | some ch ↦
            prepare_reconnects updates
              (set_channel ref.0 ref.1 (record ch { reconnect = replacement }) state)
              (applied ++ ref ∷ [])
      ]

  unfoldable pub nonce_of : Option Reconnect → Option Text
  nonce_of none = none
  nonce_of (some reconnect) = reconnect.attempt_nonce

  unfoldable pub finishable : Text → Text → Channel → Bool
  finishable expected_digest nonce ch =
      fingerprint digest ch == expected_digest && nonce_of ch.reconnect == some nonce

  unfoldable pub finished : Option Reconnect → Option Text → Channel → Channel
  finished reconnect none ch = record ch { reconnect = reconnect }
  finished reconnect (some wg) ch = record ch { reconnect = reconnect; wg = wg }

  unfoldable pub finish_reconnect_attempt :
      Data → Ref → Text → Text → Option Reconnect → Option Text → Bool × Data
  finish_reconnect_attempt state ref print nonce reconnect wg =
      elim (guarded (finishable print nonce) state ref) [
        | none ↦ (false, state)
        | some ch ↦ (true, set_channel ref.0 ref.1 (finished reconnect wg ch) state)
      ]
