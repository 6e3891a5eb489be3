-- ===== src/State/Signature/Steady.antt =====
-- About `config_signature` of state.py: the writes that do not change it.
use anyhop.Prelude.{
  inl, inr, Option-cases, ◌≡◌, refl, sym, ap, ◌∙◌, Option, none, some, List, [], ◌∷◌, arith, Text,
  list_eq, nat_eq, if◌then◌else◌,
}
use anyhop.Prelude.Dict.{
  Dict, lookup, assign, keys, items, entries, entries-none, entries-some, lookup-assign,
}
use anyhop.Prelude.Sorting.{sorted, map_values, map_values-sorted}
use anyhop.State.{Data, Provider, Channel, Probe, Reconnect, channel_at, set_channel}
use anyhop.State.Channels.{Ref}
use anyhop.State.Edits.{modify, set_probe, set_reconnect, set_label}
use anyhop.State.RuleEdits.{is_empty}
use anyhop.State.Signature.{
  SignedChannel, SignedRouter, SignedProviders, signed, signed_channels, signed_providers,
  signed_router, config_signature,
}

signed_channels-assign :
    (c : Text) (old ch : Channel) (channels : Dict Text Channel)
    → lookup c channels ≡ some old
    → signed ch ≡ signed old
    → signed_channels (assign c ch channels) ≡ signed_channels channels
unfolding lookup assign signed_channels
signed_channels-assign c old ch [] found same = cc
signed_channels-assign c old ch ((d, other) ∷ channels) found same = elim (list_eq.dec d c) [
  | yes here ↦
      let it : signed ch ≡ signed other = ground (arith, found, same, here) in
      ground (arith, here, it)
  | no ne ↦
      ground (
        arith,
        ne,
        found,
        signed_channels-assign c old ch channels (ground (arith, found, ne)) same,
      )
]

keys-assign :
    (p : Text) (prov : Provider) (old : Provider) (d : Dict Text Provider)
    → lookup p d ≡ some old
    → keys (assign p prov d) ≡ keys d
unfolding lookup assign keys
keys-assign p prov old [] found = cc
keys-assign p prov old ((q, other) ∷ d) found = ground (arith, found, keys-assign p prov old d)

signed_channels-map :
    (channels : Dict Text Channel) → signed_channels channels ≡ map_values signed channels
unfolding signed_channels map_values
signed_channels-map [] = refl
signed_channels-map ((c, ch) ∷ channels) = ap (◌∷◌ (c, signed ch)) (signed_channels-map channels)

signed_channels-sorted :
    (channels : Dict Text Channel)
    → signed_channels (sorted channels) ≡ sorted (signed_channels channels)
signed_channels-sorted channels =
    signed_channels-map (sorted channels)
    ∙ map_values-sorted signed channels
    ∙ ap sorted (sym (signed_channels-map channels))

-- What the signature has of a provider.
view : Provider → Dict Text SignedChannel
view prov = signed_channels (sorted prov.channels)

-- The providers without those that have no channels.
nonempty : SignedProviders → SignedProviders
nonempty [] = []
nonempty ((p, channels) ∷ view) =
    let rest = nonempty view in if is_empty channels then rest else (p, channels) ∷ rest

signed_providers-map :
    (providers : Dict Text Provider)
    → signed_providers providers ≡ nonempty (map_values view providers)
unfolding signed_providers map_values nonempty view
signed_providers-map [] = refl
signed_providers-map ((p, prov) ∷ providers) =
    ap (λ r. if is_empty (view prov) then r else (p, view prov) ∷ r)
      (signed_providers-map providers)

signed_providers-sorted :
    (providers : Dict Text Provider)
    → signed_providers (sorted providers) ≡ nonempty (sorted (map_values view providers))
signed_providers-sorted providers =
    signed_providers-map (sorted providers) ∙ ap nonempty (map_values-sorted view providers)

view-assign :
    (p : Text) (old new : Provider) (d : Dict Text Provider) (ks : List Text)
    → lookup p d ≡ some old
    → view new ≡ view old
    → map_values view (entries (assign p new d) ks) ≡ map_values view (entries d ks)
unfolding entries map_values
view-assign p old new d [] found same = refl
view-assign p old new d (k ∷ ks) found same =
    let rest = view-assign p old new d ks found same in
    elim (list_eq.dec p k) [
      | yes here ↦
          let before : lookup k d ≡ some old = rw (sym here) found in
          let after : lookup k (assign p new d) ≡ some new =
            ground (arith, here, lookup-assign k p new d) in
          rw (entries-some d k old ks before, entries-some (assign p new d) k new ks after)
            (ap (λ v. (k, v) ∷ map_values view (entries (assign p new d) ks)) same
              ∙ ap (λ r. (k, view old) ∷ r) rest)
      | no ne ↦ elim (Option-cases (lookup k d)) [
        | inl absent ↦
            let after : lookup k (assign p new d) ≡ none =
              ground (arith, ne, absent, lookup-assign k p new d) in
            rw (entries-none d k ks absent, entries-none (assign p new d) k ks after) rest
        | inr (prov, before) ↦
            let after : lookup k (assign p new d) ≡ some prov =
              ground (arith, ne, before, lookup-assign k p new d) in
            rw (entries-some d k prov ks before, entries-some (assign p new d) k prov ks after)
              (ap (λ r. (k, view prov) ∷ r) rest)
      ]
    ]

module _ {Digest : Type 0} (digest : SignedProviders → Option SignedRouter → Digest) where
  set_channel-signature :
      (state : Data) (p c : Text) (old ch : Channel)
      → channel_at state p c ≡ some old
      → signed ch ≡ signed old
      → config_signature digest (set_channel p c ch state) ≡ config_signature digest state
  unfolding config_signature channel_at set_channel items view
  set_channel-signature state p c old ch found same =
      elim (Option-cases (lookup p state.providers)) [
        | inl absent ↦ rw (set_channel, absent) refl
        | inr (prov, there) ↦
            let here : lookup c prov.channels ≡ some old = ground (arith, found, there) in
            let new : Provider = record { channels = assign c ch prov.channels } in
            let chans : view new ≡ view prov =
              signed_channels-sorted (assign c ch prov.channels)
              ∙ ap sorted (signed_channels-assign c old ch prov.channels here same)
              ∙ sym (signed_channels-sorted prov.channels) in
            let listed : map_values view
                  (entries (assign p new state.providers) (keys (assign p new state.providers)))
                ≡ map_values view (entries state.providers (keys state.providers)) =
              ap (λ ks. map_values view (entries (assign p new state.providers) ks))
                (keys-assign p new prov state.providers there)
              ∙ view-assign p prov new state.providers (keys state.providers) there chans in
            rw (set_channel, there)
              (ap (λ v. digest v (signed_router state.router))
                (signed_providers-sorted (items (assign p new state.providers))
                  ∙ ap (λ l. nonempty (sorted l)) listed
                  ∙ sym (signed_providers-sorted (items state.providers))))
      ]

  pub modify-signature :
      (state : Data) (ref : Ref) (change : Channel → Channel)
      → ((ch : Channel) → signed (change ch) ≡ signed ch)
      → config_signature digest (modify ref change state) ≡ config_signature digest state
  unfolding modify
  modify-signature state (p, c) change same = elim (Option-cases (channel_at state p c)) [
    | inl absent ↦ rw (modify, absent) refl
    | inr (ch, found) ↦
        rw (modify, found) (set_channel-signature state p c ch (change ch) found (same ch))
  ]

  -- A write of a probe result, of the bookkeeping of reconnects or of a label leaves the
  -- signature as it is.
  pub config_signature-steady :
      (state : Data) (ref : Ref) (probe : Option Probe) (reconnect : Option Reconnect)
      (label : Text)
      → (config_signature digest (set_probe state ref probe) ≡ config_signature digest state)
        × (config_signature digest (set_reconnect state ref reconnect)
            ≡ config_signature digest state)
        × (config_signature digest (set_label state ref label) ≡ config_signature digest state)
  unfolding set_probe set_reconnect set_label signed
  config_signature-steady state ref probe reconnect label = (
    modify-signature state ref (λ ch. record ch { probe = probe }) (λ ch. refl),
    modify-signature state ref (λ ch. record ch { reconnect = reconnect }) (λ ch. refl),
    modify-signature state ref (λ ch. record ch { label = label }) (λ ch. refl),
  )
