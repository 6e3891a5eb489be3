-- ===== src/Reconnect/Pass.antt =====
-- reconnect.py: `run_pass`, from a reading of the channels to the data after its attempts. The
-- parameters are the digest of fingerprints, the nonces, the kind of a provider, and its server
-- resolution.
use anyhop.Prelude.{
  ℕ, Bool, true, false, Option, none, some, List, [], ◌∷◌, ◌++◌, Text, ◌==◌, contains, codes,
  list_eq, nat_eq, option_eq, pair_eq, if◌then◌else◌,
}
use anyhop.State.{Data, Channel, Reconnect, reconnect_eq}
use anyhop.State.Channels.{Ref}
use anyhop.State.Edits.{fingerprint, prepare_reconnects, finish_reconnect_attempt}
use anyhop.Reconnect.{
  process_restart_allowed, note_process_restart, plan_channel, skip, update, attempt,
}

-- An attempt that a pass has planned, with the reading that it was planned from.
pub record Action : Type 0 where
  pub ref : Ref
  pub ch : Channel
  pub rc : Reconnect
  pub print : Text
  pub nonce : Text

abbrev pub Update : Type 0
Update = Ref × Text × Option Reconnect × Option Reconnect

-- What the resolution of a server ends with.
pub data Resolution : Type 0 where
  resolved : Text → Resolution
  auth_error : Text → Resolution
  server_unavailable : Text → Resolution
  other_error : Text → Resolution

unfoldable pub pinned_message : Text → Text → Text → Text → Text
pinned_message provider cid server country =
    codes "pinned server "
    ++ server
    ++ codes " is no longer available — pin another (anyhop servers "
    ++ provider
    ++ codes " --country \""
    ++ country
    ++ codes "\"): anyhop channels setserver "
    ++ provider
    ++ b'/' ∷ cid
    ++ codes " <server>, or follow the recommendation: anyhop channels setserver "
    ++ provider
    ++ b'/' ∷ cid
    ++ codes " auto"

-- The bookkeeping and the parameters that an attempt on a token provider commits.
unfoldable pub settled : Action → Resolution → Reconnect × Option Text
settled action (resolved wg) = (action.rc, some wg)
settled action (auth_error message) =
    (record action.rc { failed = true; error = some message }, none)
settled action (server_unavailable message) =
    let (provider, cid) = action.ref in
    let shown =
      if action.ch.server == []
      then message
      else pinned_message provider cid action.ch.server action.ch.country in
    (record action.rc { failed = true; error = some shown }, none)
settled action (other_error message) = (record action.rc { error = some message }, none)

module _ (digest : Bool → ℕ → Text → Text) (nonce_for : Ref → Text) where
  unfoldable pub plan_updates : ℕ → List (Ref × Channel) → List Update
  plan_updates now [] = []
  plan_updates now ((ref, ch) ∷ channels) =
      let rest = plan_updates now channels in
      elim (plan_channel now (nonce_for ref) ch) [
        | skip ↦ rest
        | update replacement ↦ (ref, fingerprint digest ch, ch.reconnect, replacement) ∷ rest
        | attempt rc ↦ (ref, fingerprint digest ch, ch.reconnect, some rc) ∷ rest
      ]

  unfoldable pub plan_actions : ℕ → List (Ref × Channel) → List Action
  plan_actions now [] = []
  plan_actions now ((ref, ch) ∷ channels) =
      let rest = plan_actions now channels in
      elim (plan_channel now (nonce_for ref) ch) [
        | attempt rc ↦
            record {
              ref = ref;
              ch = ch;
              rc = rc;
              print = fingerprint digest ch;
              nonce = nonce_for ref;
            }
            ∷ rest
        | _ ↦ rest
      ]

  -- The second loop: each attempt that was claimed is carried out, or asks for a restart.
  unfoldable pub perform :
      (Text → Bool)
      → (Channel → Resolution)
      → List Ref
      → List Action
      → Data
      → List Ref
      → List Ref × Data
  perform is_token resolve claimed [] state restarts = (restarts, state)
  perform is_token resolve claimed (action ∷ actions) state restarts =
      elim (contains claimed action.ref) [
        | false ↦ perform is_token resolve claimed actions state restarts
        | true ↦ elim (is_token action.ref.0) [
          | false ↦ perform is_token resolve claimed actions state (restarts ++ action.ref ∷ [])
          | true ↦
              let (rc, wg) = settled action (resolve action.ch) in
              perform is_token resolve claimed actions
                (finish_reconnect_attempt digest state action.ref action.print action.nonce
                  (some rc) wg).1
                restarts
        ]
      ]

  -- One pass over the channels of a reading: whether the process is restarted, the stamps, and the
  -- data after it.
  unfoldable pub run_pass :
      (Text → Bool)
      → (Channel → Resolution)
      → ℕ
      → List (Ref × Channel)
      → List ℕ
      → Data
      → Bool × List ℕ × Data
  run_pass is_token resolve now channels stamps state =
      let (claimed, prepared) = prepare_reconnects digest (plan_updates now channels) state [] in
      let (restarts, after) =
        perform is_token resolve claimed (plan_actions now channels) prepared [] in
      if restarts == []
      then (false, stamps, after)
      else if process_restart_allowed now stamps
      then (true, note_process_restart now stamps, after)
      else (false, stamps, after)
