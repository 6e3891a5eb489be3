-- ===== src/State/Refresh.antt =====
-- The operations of state.py that put new WireGuard parameters in channels or forget that the daemon
-- gave up on them.
pub mod Renewed
use anyhop.Prelude.{
  Bool, true, false, ◌==◌, Option, none, some, List, [], ◌∷◌, ◌++◌, Text, list_eq, nat_eq,
}
use anyhop.Prelude.Dict.{Dict, keys, items}
use anyhop.Result.{Result, ok, ◌>>◌}
use anyhop.State.{Data, Channel, StateError, channels_of, channel_at}
use anyhop.State.Channels.{Ref, Outcome, refs_of, provider_refs}
use anyhop.State.Edits.{modify, require_revision, revision_of}

unfoldable pub update_channel_wg :
    (Ref → Channel → Text) → Data → Ref → Text → Option Text → Outcome Bool
update_channel_wg digest state ref wg expected =
    require_revision expected (revision_of digest state ref)
    >> ok (
      elim (channel_at state ref.0 ref.1) [ none ↦ false | some _ ↦ true ],
      modify ref (λ ch. record ch { wg = wg }) state,
    )

-- `ch.pop("reconnect", None)` over channels
unfoldable pub clear_reconnects : List Ref → Data → Data
clear_reconnects [] state = state
clear_reconnects (ref ∷ refs) state =
    clear_reconnects refs (modify ref (λ ch. record ch { reconnect = none }) state)

unfoldable pub renew_channels : Text → List (Text × Text) → Data → List Text → List Text × Data
renew_channels provider [] state updated = (updated, state)
renew_channels provider ((cid, wg) ∷ more) state updated =
    renew_channels provider more (modify (provider, cid) (λ ch. record ch { wg = wg }) state)
      (elim (channel_at state provider cid) [ none ↦ updated | some _ ↦ updated ++ cid ∷ [] ])

-- `update_channels_wg`, the commit of a new token.
unfoldable pub update_channels_wg : Data → Text → Dict Text Text → List Text × Data
update_channels_wg state provider wg_by_cid =
    let (updated, renewed) = renew_channels provider (items wg_by_cid) state [] in
    (updated, clear_reconnects (refs_of provider (keys (channels_of renewed provider))) renewed)

-- `clear_reconnect_all`, without the count that it reports.
unfoldable pub clear_reconnect_all : Data → Data
clear_reconnect_all state = clear_reconnects (provider_refs state (keys state.providers)) state
