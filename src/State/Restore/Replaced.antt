-- ===== src/State/Restore/Replaced.antt =====
-- About `restore_setup` of state.py: the setup that it leaves.
use mathlib.Core.Path.{subst}
use anyhop.Prelude.{
  ℕ, inl, inr, Option-cases, Bool-cases, ◌≡◌, ◌≢◌, refl, ap, ◌∙◌, Bool, true, false, if◌then◌else◌,
  Option, none, some, List, [], ◌∷◌, arith, Text, ◌==◌, list_eq, nat_eq, pair_eq,
}
use anyhop.Prelude.Dict.{Dict, lookup, keys, contains-keys}
use anyhop.Result.{ok, ◌>>◌, >>=-eq-ok}
use anyhop.State.{Data, Channel, Router, channel_at}
use anyhop.State.Access.{provider_known}
use anyhop.State.Channels.{provider_refs}
use anyhop.State.RuleEdits.Created.{DistinctIds}
use anyhop.State.Targets.Providers.{contains-provider_refs}
use anyhop.State.Ports.{Host}
use anyhop.State.Ports.Fresh.{DistinctPorts}
use anyhop.State.Setup.{
  ChannelSpec, RulesetSpec, Specs, spec_channel, wg_of, resolved, with_router_port,
}
use anyhop.State.Setup.Merging.{same_reads-DistinctPorts}
use anyhop.State.Restore.{
  old_port, port_before, restored_channels, restored_providers, require_distinct, allocate_ports,
  replaced, with_rulesets, restore_setup,
}
use anyhop.State.Restore.Counted.{restored_rules-Counted}
use anyhop.State.Restore.Contents.{rows_of, declared_rows, rows_of-restored_rules}
use anyhop.State.Restore.Declared.{require_distinct-DistinctPorts}
use anyhop.State.Restore.Allocated.{allocate_ports-Allocated}

-- The spec of a channel in a bundle.
abbrev pub spec_at : Specs → Text → Text → Option ChannelSpec
spec_at providers p c = elim (lookup p providers) [
  | none ↦ none
  | some channels ↦ lookup c channels
]

module _ (state : Data) where
  restored_channels-some :
      (p c : Text) (spec : ChannelSpec) (l : Dict Text ChannelSpec)
      → lookup c l ≡ some spec
      → lookup c (restored_channels state p l)
        ≡ some (spec_channel spec (port_before state p c spec))
  unfolding restored_channels lookup
  restored_channels-some p c spec [] e = cc
  restored_channels-some p c spec ((d, other) ∷ l) e = elim (list_eq.dec d c) [
    | yes same ↦
        let who : other ≡ spec = ground (arith, e, same) in
        ground (
          arith,
          same,
          ap (λ (n : Text). spec_channel other (port_before state p n other)) same,
          ap (λ (x : ChannelSpec). spec_channel x (port_before state p c x)) who,
        )
    | no ne ↦ ground (arith, e, ne, restored_channels-some p c spec l)
  ]

  restored_channels-none :
      (p c : Text) (l : Dict Text ChannelSpec)
      → lookup c l ≡ none
      → lookup c (restored_channels state p l) ≡ none
  unfolding restored_channels lookup
  restored_channels-none p c [] e = refl
  restored_channels-none p c ((d, other) ∷ l) e = ground (arith, e, restored_channels-none p c l)

  restored_providers-some :
      (p : Text) (channels : Dict Text ChannelSpec) (l : Specs)
      → lookup p l ≡ some channels
      → lookup p (restored_providers state l)
        ≡ some (record { channels = restored_channels state p channels })
  unfolding restored_providers lookup
  restored_providers-some p channels [] e = cc
  restored_providers-some p channels ((q, others) ∷ l) e = elim (list_eq.dec q p) [
    | yes same ↦
        let who : others ≡ channels = ground (arith, e, same) in
        ground (
          arith,
          same,
          ap (λ (x : Dict Text ChannelSpec). restored_channels state q x) who,
          ap (λ (n : Text). restored_channels state n channels) same,
        )
    | no ne ↦ ground (arith, e, ne, restored_providers-some p channels l)
  ]

  restored_providers-none :
      (p : Text) (l : Specs) → lookup p l ≡ none → lookup p (restored_providers state l) ≡ none
  unfolding restored_providers lookup
  restored_providers-none p [] e = refl
  restored_providers-none p ((q, others) ∷ l) e = ground (arith, e, restored_providers-none p l)

  reads-replaced :
      (providers : Specs) (port : ℕ) (p c : Text)
      → channel_at (replaced state providers port) p c
        ≡ channel_at (record state { providers = restored_providers state providers }) p c
  unfolding channel_at replaced with_router_port
  reads-replaced providers port p c = elim (Bool-cases (port == 0)) [
    | inl unset ↦ rw unset refl
    | inr set ↦ rw set refl
  ]

  channel_at-replaced :
      (providers : Specs) (port : ℕ) (p c : Text) (spec : ChannelSpec)
      → spec_at providers p c ≡ some spec
      → channel_at (replaced state providers port) p c
        ≡ some (spec_channel spec (port_before state p c spec))
  unfolding channel_at
  channel_at-replaced providers port p c spec e = elim (Option-cases (lookup p providers)) [
    | inl absent ↦ absurd (ground (arith, e, absent))
    | inr (channels, found) ↦
        reads-replaced providers port p c
        ∙ ground (
          arith,
          restored_providers-some p channels providers found,
          restored_channels-some p c spec channels (ground (arith, e, found)),
        )
  ]

  absent-replaced :
      (providers : Specs) (port : ℕ) (p c : Text)
      → spec_at providers p c ≡ none
      → channel_at (replaced state providers port) p c ≡ none
  unfolding channel_at lookup
  absent-replaced providers port p c e = elim (Option-cases (lookup p providers)) [
    | inl absent ↦
        reads-replaced providers port p c
        ∙ ground (arith, restored_providers-none p providers absent)
    | inr (channels, found) ↦
        reads-replaced providers port p c
        ∙ ground (
          arith,
          restored_providers-some p channels providers found,
          restored_channels-none p c channels (ground (arith, e, found)),
        )
  ]

-- A channel that stands for a spec, where another one may have stood before.
pub record Placed (spec : ChannelSpec) (before : Option Channel) (ch : Channel) : Type 0 where
  pub place : (ch.country ≡ spec.country) × (ch.city ≡ spec.city) × (ch.label ≡ spec.label)
  pub server : ch.server ≡ spec.server
  pub parameters : (wg : Text) → spec.wg ≡ some wg → ch.wg ≡ wg
  pub switched : (enabled : Bool) → spec.enabled ≡ some enabled → ch.enabled ≡ enabled
  pub on : spec.enabled ≡ none → ch.enabled ≡ true
  pub fresh : (ch.probe ≡ none) × (ch.reconnect ≡ none) × (ch.port_home ≡ none)
  pub has_port : ch.port ≢ 0
  pub declared : spec.port ≢ 0 → (ch.port ≡ spec.port) × (ch.port_explicit ≡ true)
  pub derived :
      spec.port ≡ 0
      → (ch.port_explicit ≡ false)
        × ((old : Channel) → before ≡ some old → old.port ≢ 0 → ch.port ≡ old.port)

-- The setup after a restore.
pub record Restored (state : Data) (providers : Specs) (rulesets : List RulesetSpec)
    (killswitch lan_direct : Bool) (router_port : ℕ) (after : Data) : Type 0 where
  pub ports : DistinctPorts after
  pub ids : DistinctIds after.router.rules
  pub rows : rows_of after.router.rules ≡ declared_rows rulesets
  pub switches : (after.router.killswitch ≡ killswitch) × (after.router.lan_direct ≡ lan_direct)
  pub entry : after.router.port ≡ (if router_port == 0 then state.router.port else router_port)
  pub placed :
      (p c : Text) (spec : ChannelSpec)
      → spec_at providers p c ≡ some spec
      → (ch : Channel) × (channel_at after p c ≡ some ch) × Placed spec (channel_at state p c) ch
  pub removed : (p c : Text) → spec_at providers p c ≡ none → channel_at after p c ≡ none

spec_channel-Placed :
    (state : Data) (p c : Text) (spec : ChannelSpec) (port : ℕ)
    → port ≢ 0
    → (port_before state p c spec ≢ 0 → port ≡ port_before state p c spec)
    → Placed spec (channel_at state p c) (spec_channel spec port)
unfolding spec_channel port_before old_port wg_of resolved
spec_channel-Placed state p c spec port set kept = record {
  place = (refl, refl, refl);
  server = refl;
  parameters = λ wg e. ground (arith, e);
  switched = λ enabled e. ground (arith, e);
  on = λ e. ground (arith, e);
  fresh = (refl, refl, refl);
  has_port = set;
  declared = λ ne. (ground (arith, ne, kept), ground (arith, ne));
  derived = λ z. (ground (arith, z), λ old found ne. ground (arith, z, found, ne, kept));
}

replaced-port :
    (state : Data) (providers : Specs) (port : ℕ)
    → (replaced state providers port).router.port ≡ (if port == 0 then state.router.port else port)
unfolding replaced with_router_port
replaced-port state providers port = ground arith

-- If a setup is restored, whatever was there before, ports and the ids of rules are distinct,
-- the rows of the rules are those that the rulesets declare, in their order, the switches and
-- the port of the router are the given ones (a port 0 keeps the port that was there), and the
-- channels are those of the bundle: each has the place, label, server, parameters and switch of
-- its spec (a spec without a switch is on), no probe result, bookkeeping or home, and a port:
-- the declared one, marked as such, or else the one that it had, where there is one.
pub restore_setup-Restored :
    (host : Host) (state after : Data) (providers : Specs) (rulesets : List RulesetSpec)
    (killswitch lan_direct : Bool) (router_port : ℕ)
    → restore_setup host state providers rulesets killswitch lan_direct router_port ≡ ok after
    → Restored state providers rulesets killswitch lan_direct router_port after
unfolding restore_setup with_rulesets channel_at spec_channel
restore_setup-Restored host state after providers rulesets killswitch lan_direct router_port e =
    let fresh = replaced state providers router_port in
    let refs = provider_refs fresh (keys fresh.providers) in
    let (allocated, walked, done) =
      >>=-eq-ok (require_distinct fresh >> allocate_ports host refs fresh) _ e in
    let (seen, checked, filled) = >>=-eq-ok (require_distinct fresh) _ walked in
    let a =
      allocate_ports-Allocated host refs fresh allocated
        (require_distinct-DistinctPorts fresh seen checked) filled in
    subst (Restored state providers rulesets killswitch lan_direct router_port) (cc) (record {
      ports =
          same_reads-DistinctPorts allocated
            (with_rulesets rulesets killswitch lan_direct allocated) (λ p c. refl) refl a.distinct;
      ids = (restored_rules-Counted rulesets 1 [] (tt, λ rule m. absurd m)).0;
      rows = rows_of-restored_rules rulesets 1 [];
      switches = (refl, refl);
      entry = ap (λ (r : Router). r.port) a.router_kept ∙ replaced-port state providers router_port;
      placed = λ p c spec here.
          let ch = spec_channel spec (port_before state p c spec) in
          let found = channel_at-replaced state providers router_port p c spec here in
          let (port, there, kept, listed) = a.filled p c ch found in
          (
            spec_channel spec port,
            there,
            spec_channel-Placed state p c spec port
                (listed (
                  contains-provider_refs fresh (keys fresh.providers) p c ch
                    (contains-keys fresh.providers p (provider_known fresh p c ch found)) found))
                kept,
          );
      removed = λ p c absent. a.bare p c (absent-replaced state providers router_port p c absent);
    })
