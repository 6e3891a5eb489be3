-- ===== src/State/Edits/Observed.antt =====
-- About the operations of state.py that publish the results of background passes.
use mathlib.Core.Path.{subst}
use anyhop.Prelude.{
  ℕ, inl, inr, Option-cases, Bool-cases, ◌≡◌, ◌≢◌, ◌⊎◌, refl, Bool, true, false, ◌&&◌, Option, none,
  some, List, [], ◌∷◌, ◌++◌, arith, Text, ◌==◌, list_eq, nat_eq, option_eq, if◌then◌else◌,
}
use anyhop.Prelude.Dict.{lookup}
use anyhop.Prelude.Lists.{In}
use anyhop.Result.{ok, >>=-eq-ok}
use anyhop.State.{Data, Channel, Probe, Reconnect, reconnect_eq, channel_at, set_channel}
use anyhop.State.Access.{has_provider, channel_at-set_channel}
use anyhop.State.Channels.{Ref}
use anyhop.State.Edits.{
  modify, intent, fingerprint, guarded, set_probes, claimable, prepare_reconnects, nonce_of,
  finishable, finish_reconnect_attempt, require_revision, revision_of, with_server,
  set_channel_server,
}

pub guarded-some :
    (guard : Channel → Bool) (state : Data) (p c : Text) (ch : Channel)
    → guarded guard state (p, c) ≡ some ch
    → (channel_at state p c ≡ some ch) × (guard ch ≡ true)
unfolding guarded
guarded-some guard state p c ch e = elim (Option-cases (channel_at state p c)) [
  | inl absent ↦ absurd (ground (arith, e, absent))
  | inr (other, found) ↦ elim (Bool-cases (guard other)) [
    | inl holds ↦
        let same : other ≡ ch = ground (arith, e, found, holds) in
        subst (λ (k : Channel). (channel_at state p c ≡ some k) × (guard k ≡ true)) same
          (found, holds)
    | inr fails ↦ absurd (ground (arith, e, found, fails))
  ]
]

pub provider_of_channel :
    (state : Data) (p c : Text) (ch : Channel)
    → channel_at state p c ≡ some ch
    → has_provider state p ≡ true
unfolding channel_at has_provider lookup
provider_of_channel state p c ch e = ground (arith, e)

-- What a write to a channel that is there leaves of the record of a ref.
pub channel_at-written :
    (state : Data) (p c q e : Text) (old ch : Channel)
    → channel_at state p c ≡ some old
    → channel_at (set_channel p c ch state) q e
      ≡ (if p == q && c == e then some ch else channel_at state q e)
channel_at-written state p c q e old ch found =
    ground (arith, channel_at-set_channel state p c q e ch, provider_of_channel state p c old found)

with_server-reconnect :
    (server : Text) (wg : Option Text) (country city : Text) (ch : Channel)
    → (with_server server wg country city ch).reconnect ≡ none
unfolding with_server
with_server-reconnect [] wg country city ch = refl
with_server-reconnect (c ∷ server) none country city ch = refl
with_server-reconnect (c ∷ server) (some wg) country city ch = refl

module _ (digest : Bool → ℕ → Text → Text) where
  -- How a record stands to the one before a probe pass.
  abbrev pub Published : List (Ref × Text × Option Probe) → Ref → Channel → Channel → Type 0
  Published updates ref ch new =
      (intent new ≡ intent ch)
      × (new.reconnect ≡ ch.reconnect)
      × ((new.probe ≡ ch.probe) ⊎ In (ref, fingerprint digest ch, new.probe) updates)

  -- After a probe pass a channel has the settings that it had, and its probe result is either
  -- the old one or one of the pass whose fingerprint is that of the channel as it is.
  pub set_probes_lem :
      (updates : List (Ref × Text × Option Probe)) (state : Data) (applied : List Ref) (q e : Text)
      (ch : Channel)
      → channel_at state q e ≡ some ch
      → (new : Channel) × (channel_at (set_probes digest updates state applied).1 q e ≡ some new)
        × Published updates (q, e) ch new
  unfolding set_probes intent fingerprint
  set_probes_lem [] state applied q e ch found = (ch, found, (refl, refl, inl refl))
  set_probes_lem (((p, c), expected, result) ∷ updates) state applied q e ch found =
      elim (Option-cases (guarded (λ ch. fingerprint digest ch == expected) state (p, c))) [
        | inl stale ↦
            let (new, at, (same, rc, from)) = set_probes_lem updates state applied q e ch found in
            (
              new,
              rw (stale, set_probes) at,
              (same, rc, elim from [ inl kept ↦ inl kept | inr m ↦ inr (inr m) ]),
            )
        | inr (hit, holds) ↦
            let (there, matches) =
              guarded-some (λ ch. fingerprint digest ch == expected) state p c hit holds in
            let next = set_channel p c (record hit { probe = result }) state in
            let write =
              channel_at-written state p c q e hit (record hit { probe = result }) there in
            elim (Bool-cases (p == q && c == e)) [
              | inl mine ↦
                  let here : (p ≡ q) × (c ≡ e) = ground (arith, mine) in
                  let seen : fingerprint digest hit ≡ expected = ground (arith, matches) in
                  let own : hit ≡ ch = ground (arith, mine, there, found) in
                  let (new, at, (same, rc, from)) =
                    set_probes_lem updates next (applied ++ (p, c) ∷ []) q e
                      (record hit { probe = result }) (ground (arith, mine, write)) in
                  (
                    new,
                    rw (holds, set_probes) at,
                    (
                      cc (same, own),
                      cc (rc, own),
                      elim from [
                        | inl kept ↦ inr (inl (cc (kept, here.0, here.1, seen, own)))
                        | inr m ↦ inr (
                            inr (
                              subst
                                (λ (k : Channel).
                                  In ((q, e), fingerprint digest k, new.probe) updates)
                                own m))
                      ],
                    ),
                  )
              | inr other ↦
                  let (new, at, (same, rc, from)) =
                    set_probes_lem updates next (applied ++ (p, c) ∷ []) q e ch
                      (ground (arith, other, write, found)) in
                  (
                    new,
                    rw (holds, set_probes) at,
                    (same, rc, elim from [ inl kept ↦ inl kept | inr m ↦ inr (inr m) ]),
                  )
            ]
      ]

  channel_at-written_here :
      (state : Data) (p c : Text) (old ch : Channel)
      → channel_at state p c ≡ some old
      → channel_at (set_channel p c ch state) p c ≡ some ch
  channel_at-written_here state p c old ch found =
      ground (arith, channel_at-written state p c p c old ch found)

  -- Of two passes that plan from the same reading of the bookkeeping of a channel, each with a
  -- replacement of its own, once the first has claimed the channel the second changes nothing,
  -- provided that the first replacement is not the reading itself.
  pub prepare_reconnects-once :
      (state after : Data) (p c print later_print : Text)
      (expected replacement later : Option Reconnect)
      → replacement ≢ expected
      → prepare_reconnects digest (((p, c), print, expected, replacement) ∷ []) state []
        ≡ ((p, c) ∷ [], after)
      → prepare_reconnects digest (((p, c), later_print, expected, later) ∷ []) after []
        ≡ ([], after)
  unfolding prepare_reconnects claimable guarded
  prepare_reconnects-once state after p c print later_print expected replacement later ne e =
      elim (Option-cases (guarded (claimable digest print expected) state (p, c))) [
        | inl stale ↦ absurd (ground (arith, e, stale))
        | inr (ch, holds) ↦
            let (there, matches) =
              guarded-some (claimable digest print expected) state p c ch holds in
            let next = set_channel p c (record ch { reconnect = replacement }) state in
            let done : next ≡ after = ground (arith, e, holds) in
            subst
              (λ (d : Data).
                prepare_reconnects digest (((p, c), later_print, expected, later) ∷ []) d []
                ≡ ([], d))
              done
              (ground (
                arith,
                ne,
                channel_at-written_here state p c ch (record ch { reconnect = replacement }) there,
              ))
      ]

  -- An attempt that ends after the user has chosen the server of the channel is discarded.
  pub finish_reconnect_attempt-overtaken :
      (revision : Ref → Channel → Text) (state after : Data)
      (p c server country city print nonce : Text) (wg new_wg expected : Option Text)
      (reconnect : Option Reconnect)
      → set_channel_server revision state (p, c) server wg country city expected ≡ ok after
      → finish_reconnect_attempt digest after (p, c) print nonce reconnect new_wg ≡ (false, after)
  unfolding set_channel_server modify finish_reconnect_attempt guarded finishable nonce_of
  finish_reconnect_attempt-overtaken revision state after p c server country city print nonce wg
        new_wg expected reconnect e =
      let (u, passed, done) =
        >>=-eq-ok (require_revision expected (revision_of revision state (p, c))) _ e in
      let same : modify (p, c) (with_server server wg country city) state ≡ after = cc in
      elim (Option-cases (channel_at state p c)) [
        | inl absent ↦
            subst
              (λ (d : Data).
                finish_reconnect_attempt digest d (p, c) print nonce reconnect new_wg ≡ (false, d))
              same (ground (arith, absent))
        | inr (ch, found) ↦
            let write =
              channel_at-written_here state p c ch (with_server server wg country city ch) found in
            subst
              (λ (d : Data).
                finish_reconnect_attempt digest d (p, c) print nonce reconnect new_wg ≡ (false, d))
              same (ground (arith, found, write, with_server-reconnect server wg country city ch))
      ]
