-- ===== src/State/Access.antt =====
-- How reads of channels meet the writes of channels.
use anyhop.Prelude.{
  ◌≡◌, Bool, inl, inr, Option-cases, true, false, ◌&&◌, none, some, arith, Text, ◌==◌, list_eq,
  nat_eq, if◌then◌else◌,
}
use anyhop.Prelude.Dict.{has_key, lookup, assign, pop, lookup-assign, lookup-pop}
use anyhop.State.{Data, Channel, channel_at, set_channel, drop_channel}

-- Whether the provider is added.
unfoldable pub has_provider : Data → Text → Bool
has_provider state provider = elim (lookup provider state.providers) [
  | none ↦ false
  | some _ ↦ true
]

module _ (state : Data) (p c q e : Text) where
  pub channel_at-set_channel :
      (ch : Channel)
      → channel_at (set_channel p c ch state) q e
        ≡ (if has_provider state p && p == q && c == e then some ch else channel_at state q e)
  unfolding channel_at set_channel has_provider lookup
  channel_at-set_channel ch = elim (Option-cases (lookup p state.providers)) [
    | inl absent ↦ ground (arith, absent)
    | inr (prov, found) ↦ ground (
      arith,
      found,
      lookup-assign q p (record { channels = assign c ch prov.channels }) state.providers,
      lookup-assign e c ch prov.channels,
    )
  ]

  pub channel_at-drop_channel :
      channel_at (drop_channel p c state) q e
      ≡ (if p == q && c == e then none else channel_at state q e)
  unfolding channel_at drop_channel lookup
  channel_at-drop_channel = elim (Option-cases (lookup p state.providers)) [
    | inl absent ↦ ground (arith, absent)
    | inr (prov, found) ↦ ground (
      arith,
      found,
      lookup-assign q p (record { channels = pop c prov.channels }) state.providers,
      lookup-pop e c prov.channels,
    )
  ]

pub router-set_channel :
    (p c : Text) (ch : Channel) (state : Data) → (set_channel p c ch state).router ≡ state.router
unfolding set_channel
router-set_channel p c ch state = ground arith

pub router-drop_channel :
    (p c : Text) (state : Data) → (drop_channel p c state).router ≡ state.router
unfolding drop_channel
router-drop_channel p c state = ground arith

pub provider_known :
    (state : Data) (p c : Text) (ch : Channel)
    → channel_at state p c ≡ some ch
    → has_key p state.providers ≡ true
unfolding channel_at has_key lookup
provider_known state p c ch e = ground (arith, e)
