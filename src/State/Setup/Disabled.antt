-- ===== src/State/Setup/Disabled.antt =====
-- About the check of `merge_setup` of state.py before a bundle switches channels off.
use mathlib.Core.Path.{subst}
use anyhop.Prelude.{
  inl, inr, ◌≡◌, refl, true, false, ◌&&◌, some, List, [], ◌∷◌, arith, Text, ◌==◌, contains, list_eq,
  nat_eq, pair_eq, bool_eq, option_eq, if◌then◌else◌,
}
use anyhop.Prelude.Dict.{Dict, items}
use anyhop.Prelude.Lists.{In}
use anyhop.Result.{ok}
use anyhop.State.{Data}
use anyhop.State.Guard.{TargetsLive, require_unreferenced-ok}
use anyhop.State.Channels.{Ref, require_unreferenced}
use anyhop.State.Targets.Providers.{contains-append}
use anyhop.State.Setup.Merging.{Unnamed}
use anyhop.State.Setup.{ChannelSpec, enabled_at, disabling_channels, disabling}

abbrev names_off : Data → Text → ChannelSpec → Text → List Ref
names_off state provider spec cid =
    if spec.enabled == some false && enabled_at state (provider, cid)
    then (provider, cid) ∷ []
    else []

module _ (state : Data) where
  disabling_channels_lem :
      (p c : Text) (spec : ChannelSpec) (specs : List (Text × ChannelSpec))
      → In (c, spec) specs
      → spec.enabled ≡ some false
      → enabled_at state (p, c) ≡ true
      → contains (disabling_channels state p specs) (p, c) ≡ true
  unfolding disabling_channels contains
  disabling_channels_lem p c spec [] m off on = absurd m
  disabling_channels_lem p c spec ((d, other) ∷ specs) (inl same) off on =
      let now : contains (names_off state p other d) (p, c) ≡ true =
        subst (λ (x : Text × ChannelSpec). contains (names_off state p x.1 x.0) (p, c) ≡ true) same
          (ground (arith, off, on)) in
      ground (
        arith,
        now,
        contains-append (names_off state p other d) (disabling_channels state p specs) (p, c),
      )
  disabling_channels_lem p c spec ((d, other) ∷ specs) (inr m) off on = ground (
    arith,
    disabling_channels_lem p c spec specs m off on,
    contains-append (names_off state p other d) (disabling_channels state p specs) (p, c),
  )

  disabling_lem :
      (p c : Text) (channels : Dict Text ChannelSpec) (spec : ChannelSpec)
      (specs : List (Text × Dict Text ChannelSpec))
      → In (p, channels) specs
      → In (c, spec) (items channels)
      → spec.enabled ≡ some false
      → enabled_at state (p, c) ≡ true
      → contains (disabling state specs) (p, c) ≡ true
  unfolding disabling
  disabling_lem p c channels spec [] m k off on = absurd m
  disabling_lem p c channels spec ((q, others) ∷ specs) (inl same) k off on =
      let now : contains (disabling_channels state q (items others)) (p, c) ≡ true =
        subst
          (λ (x : Text × Dict Text ChannelSpec).
            contains (disabling_channels state x.0 (items x.1)) (p, c) ≡ true)
          same (disabling_channels_lem p c spec (items channels) k off on) in
      rw
        (
          contains-append (disabling_channels state q (items others)) (disabling state specs)
              (p, c),
          now,
        )
        refl
  disabling_lem p c channels spec ((q, others) ∷ specs) (inr m) k off on = ground (
    arith,
    disabling_lem p c channels spec specs m k off on,
    contains-append (disabling_channels state q (items others)) (disabling state specs) (p, c),
  )

  -- What a spec switches off is named by no rule.
  pub spec_off-Unnamed :
      (u : Unit {0}) (specs : List (Text × Dict Text ChannelSpec))
      → TargetsLive state
      → require_unreferenced state (disabling state specs) ≡ ok u
      → (p c : Text) (channels : Dict Text ChannelSpec) (spec : ChannelSpec)
      → In (p, channels) specs
      → In (c, spec) (items channels)
      → spec.enabled ≡ some false
      → Unnamed state p c
  unfolding enabled_at
  spec_off-Unnamed u specs t passed p c channels spec m k off rule i named =
      let (ch, found, up) = t.live rule p c i named in
      let on : enabled_at state (p, c) ≡ true = rw (enabled_at, found) up in
      cc (
        require_unreferenced-ok state (disabling state specs) u passed rule p c i named,
        disabling_lem p c channels spec specs m k off on,
      )
