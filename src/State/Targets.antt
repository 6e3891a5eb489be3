-- ===== src/State/Targets.antt =====
-- About the targets of rules under the operations on channels of state.py.
pub mod Switch
pub mod Providers
pub mod Added
use mathlib.Core.Path.{subst}
use anyhop.Prelude.{
  ℕ, inl, inr, Option-cases, Bool-cases, ◌≡◌, ◌≢◌, refl, sym, ap, ◌∙◌, Bool, true, false, not, ◌&&◌,
  ◌||◌, ◌++◌, Option, none, some, List, [], ◌∷◌, arith, Text, ◌==◌, contains, list_eq, nat_eq,
  pair_eq, bool_eq, if◌then◌else◌,
}
use anyhop.Prelude.Dict.{Dict, lookup, assign, pop, lookup-pop, keys, In-keys}
use anyhop.Prelude.Lists.{In}
use anyhop.Result.{Result, ok, err, >>=-eq-ok}
use anyhop.Rule.{Rule}
use anyhop.State.{
  Data, Provider, Channel, StateError, channels_of, channel_at, set_channel, drop_channel,
}
use anyhop.State.Access.{
  has_provider, channel_at-set_channel, channel_at-drop_channel, router-set_channel,
  router-drop_channel,
}
use anyhop.State.Ids.{target_ref}
use anyhop.State.Guard.{Live, TargetsLive, require_unreferenced-ok}
use anyhop.State.Channels.{
  Ref, Outcome, require_unreferenced, provider_refs, refs_of, pop_providers, remove_providers,
  drop_channels, remove_channels,
}
use anyhop.State.Edits.{require_revisions, switched, switch_channels, set_channels_enabled}

-- Where the rules stay, the invariant stays if the channels that rules name stay live.
pub targets_kept :
    (before after : Data)
    → TargetsLive before
    → after.router ≡ before.router
    → ((rule : Rule) (p c : Text)
        → In rule before.router.rules
        → target_ref rule.target ≡ some (p, c)
        → Live before p c
        → Live after p c)
    → TargetsLive after
targets_kept before after t same keep = record {
  live = λ rule p c m e.
      let m0 : In rule before.router.rules = subst (λ r. In rule r.rules) same m in
      keep rule p c m0 e (t.live rule p c m0 e);
}

pub set_channel-TargetsLive :
    (state : Data) (p c : Text) (ch : Channel)
    → TargetsLive state
    → ((old : Channel) → channel_at state p c ≡ some old → old.enabled ≡ true → ch.enabled ≡ true)
    → TargetsLive (set_channel p c ch state)
set_channel-TargetsLive state p c ch t on =
    targets_kept state (set_channel p c ch state) t (router-set_channel p c ch state)
      (λ rule q e m h (old, found, up).
        elim (Bool-cases (has_provider state p && p == q && c == e)) [
          | inl hit ↦ (
            ch,
            ground (arith, hit, channel_at-set_channel state p c q e ch),
            on old (ground (arith, hit, found)) up,
          )
          | inr miss ↦
              (old, ground (arith, miss, found, channel_at-set_channel state p c q e ch), up)
        ])

router-drop_channels :
    (state : Data) (refs removed : List Ref)
    → (drop_channels state refs removed).1.router ≡ state.router
unfolding drop_channels
router-drop_channels state [] removed = refl
router-drop_channels state ((p, c) ∷ refs) removed =
    router-drop_channels (drop_channel p c state) refs _ ∙ router-drop_channel p c state

channel_at-drop_channels :
    (state : Data) (refs removed : List Ref) (q e : Text)
    → channel_at (drop_channels state refs removed).1 q e
      ≡ (if contains refs (q, e) then none else channel_at state q e)
unfolding drop_channels contains
channel_at-drop_channels state [] removed q e = refl
channel_at-drop_channels state ((p, c) ∷ refs) removed q e =
    channel_at-drop_channels (drop_channel p c state) refs _ q e
    ∙ ground (arith, channel_at-drop_channel state p c q e)

-- If targets are live and a batch of channels is removed, exactly its channels are gone, and
-- each rule that names a channel still names one that is there and switched on.
pub remove_channels-TargetsLive :
    (state after : Data) (refs removed : List Ref)
    → TargetsLive state
    → remove_channels state refs ≡ ok (removed, after)
    → TargetsLive after
      × ((q e : Text)
          → channel_at after q e ≡ (if contains refs (q, e) then none else channel_at state q e))
unfolding remove_channels
remove_channels-TargetsLive state after refs removed t h =
    let (u, passed, done) = >>=-eq-ok (require_unreferenced state refs) _ h in
    let same : (drop_channels state refs []).1 ≡ after = cc in
    subst
      (λ (d : Data).
        TargetsLive d
        × ((q e : Text)
            → channel_at d q e ≡ (if contains refs (q, e) then none else channel_at state q e)))
      same
      (
        targets_kept state (drop_channels state refs []).1 t (router-drop_channels state refs [])
            (λ rule q e m g (ch, found, up). (
              ch,
              ground (
                arith,
                found,
                channel_at-drop_channels state refs [] q e,
                require_unreferenced-ok state refs u passed rule q e m g,
              ),
              up,
            )),
        channel_at-drop_channels state refs [],
      )
