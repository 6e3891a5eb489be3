-- ===== src/State/Refresh/Renewed.antt =====
-- About `update_channels_wg` and `clear_reconnect_all` of state.py.
use mathlib.Core.Option
use mathlib.Core.Path.{subst}
use anyhop.Prelude.{
  inl, inr, Option-cases, ◌≡◌, ◌≢◌, refl, ◌∙◌, ◌&&◌, true, false, Option, none, some, List, [], ◌∷◌,
  ◌++◌, arith, Text, ◌==◌, contains, list_eq, nat_eq, pair_eq, if◌then◌else◌,
}
use anyhop.Prelude.Dict.{
  Dict, lookup, keys, items, entries, entries-none, entries-some, has_key, contains-keys, In-keys,
}
use anyhop.State.{Data, Channel, channels_of, channel_at}
use anyhop.State.Access.{provider_known}
use anyhop.State.Channels.{Ref, refs_of, provider_refs}
use anyhop.State.Edits.{modify}
use anyhop.State.Edits.Observed.{channel_at-written}
use anyhop.State.Targets.Providers.{contains-refs_of, contains-provider_refs}
use anyhop.State.Refresh.{clear_reconnects, renew_channels, update_channels_wg, clear_reconnect_all}

abbrev pub quiet : Channel → Channel
quiet ch = record ch { reconnect = none }

abbrev pub renew : Option Text → Channel → Channel
renew none ch = ch
renew (some wg) ch = record ch { wg = wg }

channel_at-modify :
    (state : Data) (p c q e : Text) (change : Channel → Channel)
    → channel_at (modify (p, c) change state) q e ≡ (
        if p == q && c == e then Option.map change (channel_at state q e) else channel_at state q e)
unfolding modify
channel_at-modify state p c q e change = elim (Option-cases (channel_at state p c)) [
  | inl absent ↦ ground (arith, absent)
  | inr (ch, found) ↦ ground (arith, found, channel_at-written state p c q e ch (change ch) found)
]

channel_at-clear_reconnects :
    (refs : List Ref) (state : Data) (q e : Text)
    → channel_at (clear_reconnects refs state) q e ≡ (
        if contains refs (q, e)
        then Option.map quiet (channel_at state q e)
        else channel_at state q e)
unfolding clear_reconnects contains
channel_at-clear_reconnects [] state q e = refl
channel_at-clear_reconnects ((p, c) ∷ refs) state q e = ground (
  arith,
  channel_at-modify state p c q e quiet,
  channel_at-clear_reconnects refs (modify (p, c) quiet state) q e,
)

channel_at-renew_channels :
    (d : Dict Text Text) (ks : List Text) (p q e : Text) (state : Data) (updated : List Text)
    → channel_at (renew_channels p (entries d ks) state updated).1 q e ≡ (
        if p == q && contains ks e
        then Option.map (renew (lookup e d)) (channel_at state q e)
        else channel_at state q e)
unfolding renew_channels entries contains
channel_at-renew_channels d [] p q e state updated = ground arith
channel_at-renew_channels d (k ∷ ks) p q e state updated = elim (Option-cases (lookup k d)) [
  | inl absent ↦
      rw (entries-none d k ks absent)
        (ground (arith, absent, channel_at-renew_channels d ks p q e state updated))
  | inr (wg, found) ↦ rw (entries-some d k wg ks found) (
      ground (
        arith,
        found,
        channel_at-modify state p k q e (λ ch. record ch { wg = wg }),
        channel_at-renew_channels d ks p q e (modify (p, k) (λ ch. record ch { wg = wg }) state)
            (elim (channel_at state p k) [ none ↦ updated | some _ ↦ updated ++ k ∷ [] ]),
      ))
]

refs_of-other : (p q e : Text) (cids : List Text) → p ≢ q → contains (refs_of p cids) (q, e) ≡ false
unfolding refs_of contains
refs_of-other p q e [] ne = refl
refs_of-other p q e (c ∷ cids) ne = ground (arith, ne, refs_of-other p q e cids)

renewed-all :
    (state : Data) (p q e : Text) (d : Dict Text Text)
    → (if p == q && contains (keys d) e
        then Option.map (renew (lookup e d)) (channel_at state q e)
        else channel_at state q e)
      ≡ (if p == q
          then Option.map (renew (lookup e d)) (channel_at state q e)
          else channel_at state q e)
unfolding has_key
renewed-all state p q e d = elim (Option-cases (lookup e d)) [
  | inl absent ↦ rw absent (ground arith)
  | inr (wg, found) ↦ ground (arith, found, contains-keys d e)
]

-- Every channel of the provider is among the refs that are cleared.
cleared-all :
    (state : Data) (p q e : Text)
    → (if contains (refs_of p (keys (channels_of state p))) (q, e)
        then Option.map quiet (channel_at state q e)
        else channel_at state q e)
      ≡ (if p == q then Option.map quiet (channel_at state q e) else channel_at state q e)
unfolding channel_at lookup keys
cleared-all state p q e = elim (Option-cases (channel_at state q e)) [
  | inl absent ↦ rw absent (ground arith)
  | inr (ch, found) ↦ elim (list_eq.dec p q) [
    | yes same ↦ ground (arith, found, same, listed same ch found)
    | no ne ↦ ground (arith, found, ne, refs_of-other p q e (keys (channels_of state p)) ne)
  ]
]
  where
    listed :
        p ≡ q
        → (ch : Channel) → channel_at state q e ≡ some ch
        → contains (refs_of p (keys (channels_of state p))) (q, e) ≡ true
    listed same ch found =
        subst (λ (n : Text). contains (refs_of p (keys (channels_of state p))) (n, e) ≡ true) same
          (contains-refs_of p e (keys (channels_of state p))
            (In-keys (channels_of state p) e ch (rw same found)))

-- After a change of a token each channel of its provider has the new tunnel parameters, if there
-- are new ones for it, and no bookkeeping of reconnects; the rest of it and the other providers
-- stay.
pub update_channels_wg_lem :
    (state : Data) (provider q e : Text) (wg_by_cid : Dict Text Text)
    → channel_at (update_channels_wg state provider wg_by_cid).1 q e ≡ (
        if provider == q
        then Option.map (λ ch. quiet (renew (lookup e wg_by_cid) ch)) (channel_at state q e)
        else channel_at state q e)
unfolding update_channels_wg items
update_channels_wg_lem state provider q e wg_by_cid =
    let renewed = (renew_channels provider (items wg_by_cid) state []).1 in
    channel_at-clear_reconnects (refs_of provider (keys (channels_of renewed provider))) renewed q e
    ∙ cleared-all renewed provider q e
    ∙ ground (
      arith,
      channel_at-renew_channels wg_by_cid (keys wg_by_cid) provider q e state [],
      renewed-all state provider q e wg_by_cid,
    )

-- A restart drops the bookkeeping of reconnects of every channel, and leaves the rest of it.
pub clear_reconnect_all_lem :
    (state : Data) (q e : Text)
    → channel_at (clear_reconnect_all state) q e ≡ Option.map quiet (channel_at state q e)
unfolding clear_reconnect_all
clear_reconnect_all_lem state q e =
    channel_at-clear_reconnects (provider_refs state (keys state.providers)) state q e
    ∙ elim (Option-cases (channel_at state q e)) [
      | inl absent ↦ ground (arith, absent)
      | inr (ch, found) ↦ ground (
        arith,
        found,
        contains-provider_refs state (keys state.providers) q e ch
            (contains-keys state.providers q (provider_known state q e ch found)) found,
      )
    ]
