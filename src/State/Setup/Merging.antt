-- ===== src/State/Setup/Merging.antt =====
-- About `merge_setup` of state.py: what its walk over channels keeps.
use mathlib.Core.Path.{subst}
use anyhop.Prelude.{
  ℕ, inl, inr, Option-cases, Bool-cases, ◌≡◌, ◌≢◌, refl, sym, ◌∙◌, Bool, true, false, ◌&&◌, Option,
  none, some, List, [], ◌∷◌, arith, Text, ◌==◌, list_eq, nat_eq, pair_eq, bool_eq, option_eq,
}
use anyhop.Prelude.Dict.{Dict, lookup, lookup-set_default, items, kept}
use anyhop.Prelude.Lists.{In}
use anyhop.Result.{ok, >>=-eq-ok}
use anyhop.Rule.{Rule}
use anyhop.State.{Data, Channel, channels_of, channel_at, set_channel}
use anyhop.State.Access.{has_provider, channel_at-set_channel, router-set_channel}
use anyhop.State.Ids.{target_ref}
use anyhop.State.Guard.{TargetsLive}
use anyhop.State.Targets.{targets_kept}
use anyhop.State.Targets.Added.{port_for_free, repointed_own}
use anyhop.State.Channels.{add_provider, port_for, repointed}
use anyhop.State.Ports.{Host, Holder, channel, entrypoint}
use anyhop.State.Ports.Used.{Holds}
use anyhop.State.Ports.Fresh.{DistinctPorts}
use anyhop.State.Ports.Kept.{set_channel-DistinctPorts}
use anyhop.State.Setup.{
  ChannelSpec, Summary, resolved, spec_channel, is_unchanged, merged, merge_channel, merge_channels,
  note_provider, merge_providers,
}

-- No rule names the channel.
abbrev pub Unnamed : Data → Text → Text → Type 0
Unnamed state p c =
    (rule : Rule) → In rule state.router.rules → target_ref rule.target ≢ some (p, c)

-- What the merge keeps while it walks over the channels.
pub record Merging (state now : Data) : Type 0 where
  pub ports : DistinctPorts now
  pub targets : TargetsLive now
  pub router_kept : now.router ≡ state.router

pub same_reads-DistinctPorts :
    (before after : Data)
    → ((p c : Text) → channel_at after p c ≡ channel_at before p c)
    → after.router.port ≡ before.router.port
    → DistinctPorts before
    → DistinctPorts after
same_reads-DistinctPorts before after reads port d = record {
  one_holder = λ h k x ne hh hk. d.one_holder h k x ne (back h x hh) (back k x hk);
}
  where
    back : (h : Holder) (x : ℕ) → Holds after h x → Holds before h x
    back (channel p c) x (ch, found, same) = (ch, sym (reads p c) ∙ found, same)
    back entrypoint x held = sym port ∙ held

channel_at-add_provider :
    (state : Data) (provider p c : Text)
    → channel_at (add_provider state provider) p c ≡ channel_at state p c
unfolding channel_at channels_of add_provider kept lookup
channel_at-add_provider state provider p c =
    ground (arith, lookup-set_default p provider (record { channels = [] }) state.providers)

pub add_provider-Merging :
    (state now : Data) (provider : Text)
    → Merging state now
    → Merging state (add_provider now provider)
unfolding add_provider
add_provider-Merging state now provider m = record {
  ports =
      same_reads-DistinctPorts now (add_provider now provider)
        (channel_at-add_provider now provider) refl m.ports;
  targets =
      targets_kept now (add_provider now provider) m.targets refl (λ rule p c i t (ch, found, up).
        (ch, channel_at-add_provider now provider p c ∙ found, up));
  router_kept = m.router_kept;
}

-- A write of a channel with a port of its own, which switches the channel off only if no rule names
-- it.
pub set_channel-Merging :
    (state now : Data) (p c : Text) (ch : Channel)
    → Merging state now
    → ((h : Holder) → ch.port ≢ 0 → Holds now h ch.port → h ≡ channel p c)
    → ((rule : Rule) (old : Channel)
        → In rule state.router.rules
        → target_ref rule.target ≡ some (p, c)
        → channel_at now p c ≡ some old
        → old.enabled ≡ true
        → ch.enabled ≡ true)
    → Merging state (set_channel p c ch now)
set_channel-Merging state now p c ch m own on = record {
  ports = set_channel-DistinctPorts now p c ch m.ports own;
  targets =
      targets_kept now (set_channel p c ch now) m.targets (router-set_channel p c ch now)
        (λ rule q e i t (old, found, up).
          elim (Bool-cases (has_provider now p && p == q && c == e)) [
            | inl hit ↦
                let here : (p ≡ q) × (c ≡ e) = ground (arith, hit) in
                let there : channel_at now p c ≡ some old = rw (here.0, here.1) found in
                (
                  ch,
                  ground (arith, hit, channel_at-set_channel now p c q e ch),
                  on rule old (subst (λ r. In rule r.rules) m.router_kept i) (rw (here.0, here.1) t)
                      there up,
                )
            | inr miss ↦
                (old, ground (arith, miss, found, channel_at-set_channel now p c q e ch), up)
          ]);
  router_kept = router-set_channel p c ch now ∙ m.router_kept;
}

spec_off :
    (enabled : Option Bool) (current : Bool)
    → current ≡ true
    → enabled ≢ some false
    → resolved enabled current ≡ true
unfolding resolved
spec_off none current up not_off = up
spec_off (some true) current up not_off = refl
spec_off (some false) current up not_off = absurd (not_off refl)

pub merge_channel-Merging :
    (host : Host) (state now after : Data) (p c : Text) (spec : ChannelSpec)
    (summary reported : Summary)
    → Merging state now
    → (spec.enabled ≡ some false → Unnamed state p c)
    → merge_channel host p c spec summary now ≡ ok (reported, after)
    → Merging state after
unfolding merge_channel spec_channel merged
merge_channel-Merging host state now after p c spec summary reported m off e =
    elim (Option-cases (channel_at now p c)) [
      | inl absent ↦
          let (port, ported, done) =
            >>=-eq-ok (port_for host now spec.port) _ (rw (absent, merge_channel) at e) in
          let (pos, free) = port_for_free host now spec.port port m.ports ported in
          subst (Merging state) (cc) (
            set_channel-Merging state now p c (spec_channel spec port) m
              (λ h ne held. absurd (free h held)) (λ rule old i t found up. cc (found, absent)))
      | inr (ch, known) ↦ elim (Bool-cases (is_unchanged spec ch)) [
        | inl same ↦ subst (Merging state) (ground (arith, e, known, same)) m
        | inr changed ↦
            let (port, ported, done) =
              >>=-eq-ok (repointed now p c ch spec.port) _
                (rw (known, merge_channel, changed) at e) in
            subst (Merging state) (cc) (
              set_channel-Merging state now p c (merged spec port ch) m
                (repointed_own now p c ch spec.port port m.ports known ported)
                (λ rule old i t found up.
                  spec_off spec.enabled ch.enabled (cc (known, found, up)) (λ o. off o rule i t)))
      ]
    ]

pub merge_channels-Merging :
    (host : Host) (state now after : Data) (p : Text) (specs : List (Text × ChannelSpec))
    (summary reported : Summary)
    → Merging state now
    → ((c : Text) (spec : ChannelSpec)
        → In (c, spec) specs
        → spec.enabled ≡ some false
        → Unnamed state p c)
    → merge_channels host p specs summary now ≡ ok (reported, after)
    → Merging state after
unfolding merge_channels
merge_channels-Merging host state now after p [] summary reported m off e =
    subst (Merging state) (cc) m
merge_channels-Merging host state now after p ((c, spec) ∷ specs) summary reported m off e =
    let ((noted, next), first, rest) = >>=-eq-ok (merge_channel host p c spec summary now) _ e in
    merge_channels-Merging host state next after p specs noted reported
      (merge_channel-Merging host state now next p c spec summary noted m (off c spec (inl refl))
        first)
      (λ d other i. off d other (inr i)) rest

pub merge_providers-Merging :
    (host : Host) (state now after : Data) (specs : List (Text × Dict Text ChannelSpec))
    (summary reported : Summary)
    → Merging state now
    → ((p c : Text) (channels : Dict Text ChannelSpec) (spec : ChannelSpec)
        → In (p, channels) specs
        → In (c, spec) (items channels)
        → spec.enabled ≡ some false
        → Unnamed state p c)
    → merge_providers host specs summary now ≡ ok (reported, after)
    → Merging state after
unfolding merge_providers
merge_providers-Merging host state now after [] summary reported m off e =
    subst (Merging state) (cc) m
merge_providers-Merging host state now after ((p, channels) ∷ specs) summary reported m off e =
    let ((noted, next), first, rest) =
      >>=-eq-ok
        (merge_channels host p (items channels) (note_provider host p summary now)
          (add_provider now p))
        _ e in
    merge_providers-Merging host state next after specs noted reported
      (merge_channels-Merging host state (add_provider now p) next p (items channels)
        (note_provider host p summary now) noted (add_provider-Merging state now p m)
        (λ c spec. off p c channels spec (inl refl)) first)
      (λ q c other spec i. off q c other spec (inr i)) rest
