-- ===== src/State/Recovery/Restored.antt =====
-- About `restore_home_ports` of state.py.
use mathlib.Core.Path.{subst}
use anyhop.Prelude.{
  ℕ, inl, inr, Option-cases, ◌≡◌, ◌≢◌, refl, sym, ap, Bool, true, false, Option, none, some, List,
  [], ◌∷◌, arith, Text, contains, list_eq, nat_eq,
}
use anyhop.Prelude.Dict.{keys, contains-keys}
use anyhop.State.{Data, Channel, channel_at, set_channel}
use anyhop.State.Edits.Observed.{channel_at-written}
use anyhop.State.Channels.{Ref}
use anyhop.State.Ports.{Holder, channel, used_ports}
use anyhop.State.Ports.Used.{Holds, used_ports_complete}
use anyhop.State.Ports.Fresh.{DistinctPorts}
use anyhop.State.Ports.Kept.{Holds-set_channel, set_channel-DistinctPorts}
use anyhop.State.Recovery.{
  set_router_port, discard, home_of, channel_home, restore_channels, all_refs, restore_home_ports,
}
use anyhop.State.Recovery.Moved.{router_moved-DistinctPorts}

-- The set of used ports has every port that somebody holds.
abbrev Covers : List ℕ → Data → Type 0
Covers used state = (h : Holder) (x : ℕ) → x ≢ 0 → Holds state h x → contains used x ≡ true

contains-discard :
    (port x : ℕ) (used : List ℕ)
    → x ≢ port
    → contains used x ≡ true
    → contains (discard port used) x ≡ true
unfolding contains discard
contains-discard port x [] ne h = cc
contains-discard port x (y ∷ used) ne h = ground (arith, ne, h, contains-discard port x used ne)

home_of_free :
    (bindable : ℕ → Bool) (used : List ℕ) (explicit : Bool) (current home : ℕ) (stored : Option ℕ)
    → home_of bindable used explicit current stored ≡ some home
    → contains used home ≡ false
unfolding home_of
home_of_free bindable used explicit current home none e = absurd (cc)
home_of_free bindable used explicit current home (some other) e = ground (arith, e)

channel_home-some :
    (bindable : ℕ → Bool) (used : List ℕ) (o : Option Channel) (ch : Channel) (home : ℕ)
    → channel_home bindable used o ≡ some (ch, home)
    → (o ≡ some ch) × (contains used home ≡ false)
unfolding channel_home
channel_home-some bindable used none ch home e = absurd (cc)
channel_home-some bindable used (some other) ch home e =
    elim (Option-cases (home_of bindable used other.port_explicit other.port other.port_home)) [
      | inl stays ↦ absurd (ground (arith, e, stays))
      | inr (place, found) ↦
          let same : (other, place) ≡ (ch, home) = ground (arith, e, found) in
          (
            ap (λ (t : Channel × ℕ). some (t.0)) same,
            subst (λ (t : Channel × ℕ). contains used t.1 ≡ false) same
                (home_of_free bindable used other.port_explicit other.port place other.port_home
                  found),
          )
    ]

module _ (state : Data) (p c : Text) (ch : Channel) (home : ℕ) (used : List ℕ) where
  abbrev moved_home : Data
  moved_home = set_channel p c (record ch { port = home }) state

  own_home : (x : ℕ) → channel_at state p c ≡ some ch → Holds moved_home (channel p c) x → home ≡ x
  own_home x there (other, found, at) =
      ground
        (arith, found, at, channel_at-written state p c p c ch (record ch { port = home }) there)

  moved_home-Covers :
      DistinctPorts state
      → Covers used state
      → channel_at state p c ≡ some ch
      → Covers (home ∷ discard ch.port used) moved_home
  unfolding contains
  moved_home-Covers d covers there h x ne held =
      elim (Holds-set_channel state p c (record ch { port = home }) h x held) [
        | inl (mine, port) ↦ ground (arith, port)
        | inr old ↦ elim (nat_eq.dec x ch.port) [
          | no other ↦ ground (arith, contains-discard ch.port x used other (covers h x ne old))
          | yes same ↦
              let mine : h ≡ channel p c =
                d.one_holder h (channel p c) x ne old (ch, there, sym same) in
              let port : home ≡ x =
                own_home x there (subst (λ k. Holds moved_home k x) mine held) in
              ground (arith, port)
        ]
      ]

  moved_home-DistinctPorts :
      DistinctPorts state
      → Covers used state
      → contains used home ≡ false
      → DistinctPorts moved_home
  moved_home-DistinctPorts d covers free =
      set_channel-DistinctPorts state p c (record ch { port = home }) d
        (λ h ne held. absurd (cc (free, covers h home ne held)))

abbrev Held : List ℕ × List (Holder × ℕ) × Data → Type 0
Held (used, restored, state) = DistinctPorts state × Covers used state

restore_channels-Held :
    (bindable : ℕ → Bool) (refs : List Ref) (used : List ℕ) (restored : List (Holder × ℕ))
    (state : Data)
    → DistinctPorts state
    → Covers used state
    → Held (restore_channels bindable refs used restored state)
unfolding restore_channels
restore_channels-Held bindable [] used restored state d covers = (d, covers)
restore_channels-Held bindable ((p, c) ∷ refs) used restored state d covers =
    elim (Option-cases (channel_home bindable used (channel_at state p c))) [
      | inl stays ↦
          rw (stays, restore_channels)
            (restore_channels-Held bindable refs used restored state d covers)
      | inr ((ch, home), found) ↦
          let (there, free) =
            channel_home-some bindable used (channel_at state p c) ch home found in
          rw (found, restore_channels)
            (restore_channels-Held bindable refs (home ∷ discard ch.port used) _ _
              (moved_home-DistinctPorts state p c ch home used d covers free)
              (moved_home-Covers state p c ch home used d covers there))
    ]

-- Moving ports back to their homes keeps ports distinct.
pub restore_home_ports-DistinctPorts :
    (sorted : List Ref → List Ref) (bindable : ℕ → Bool) (state : Data)
    → DistinctPorts state
    → DistinctPorts (restore_home_ports sorted bindable state).1
unfolding restore_home_ports set_router_port
restore_home_ports-DistinctPorts sorted bindable state d =
    let walk =
      restore_channels bindable (sorted (all_refs state)) (keys (used_ports state)) [] state in
    let (distinct, covers) =
      restore_channels-Held bindable (sorted (all_refs state)) (keys (used_ports state)) [] state d
        (λ h x ne held.
          contains-keys (used_ports state) x (used_ports_complete state h x held ne)) in
    elim (Option-cases (
      home_of bindable walk.0 walk.2.router.port_explicit walk.2.router.port
        walk.2.router.port_home)) [
          | inl stays ↦ rw (restore_home_ports, stays) distinct
          | inr (home, found) ↦
              rw (restore_home_ports, found)
                (router_moved-DistinctPorts walk.2 (set_router_port home walk.2) home distinct
                  (λ h ne held. cc (
                    covers h home ne held,
                    home_of_free bindable walk.0 walk.2.router.port_explicit walk.2.router.port home
                        walk.2.router.port_home found,
                  ))
                  refl refl)
        ]
