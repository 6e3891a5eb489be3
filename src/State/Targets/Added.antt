-- ===== src/State/Targets/Added.antt =====
-- About `add_channel` and `upsert_channel` of state.py.
use mathlib.Core.Path.{subst}
use anyhop.Prelude.{
  ℕ, ◌<◌, inl, inr, Option-cases, Bool-cases, ◌≡◌, ◌≢◌, refl, Bool, true, false, not, ◌&&◌, none,
  some, List, [], ◌∷◌, arith, Text, ◌==◌, contains, list_eq, nat_eq,
}
use anyhop.Prelude.Dict.{lookup, keys, In-keys}
use anyhop.Prelude.Lists.{In}
use anyhop.Result.{ok, >>=-eq-ok}
use anyhop.State.{Data, Provider, Channel, channel_at, set_channel}
use anyhop.State.Access.{has_provider, channel_at-set_channel}
use anyhop.State.Ids.{next_id, slug}
use anyhop.State.Ids.Fresh.{next_id_fresh}
use anyhop.State.Guard.{TargetsLive}
use anyhop.State.Targets.{set_channel-TargetsLive}
use anyhop.State.Channels.{
  require_provider, port_for, repointed, new_channel, imported, add_channel, upsert_channel,
}
use anyhop.State.Ports.{Host, Holder, channel}
use anyhop.State.Ports.Used.{Holds}
use anyhop.State.Ports.Fresh.{DistinctPorts, claim_port_free, next_free_port_free}
use anyhop.State.Ports.Kept.{set_channel-DistinctPorts}

pub port_for_free :
    (host : Host) (state : Data) (port q : ℕ)
    → DistinctPorts state
    → port_for host state port ≡ ok q
    → (0 < q) × ((h : Holder) → ¬ Holds state h q)
unfolding port_for
port_for_free host state port q d e = elim (nat_eq.dec port 0) [
  | yes unset ↦ next_free_port_free host state q (ground (arith, e, unset))
  | no given ↦
      let (same, pos, hi, free) = claim_port_free state port q none d (ground (arith, e, given)) in
      (pos, λ h held. cc (free h held))
]

contains-In : (xs : List Text) (x : Text) → In x xs → contains xs x ≡ true
unfolding contains
contains-In [] x m = absurd m
contains-In (y ∷ xs) x m = ground (arith, m, contains-In xs x)

absent_of_keys :
    (state : Data) (p c : Text) (prov : Provider)
    → lookup p state.providers ≡ some prov
    → contains (keys prov.channels) c ≡ false
    → channel_at state p c ≡ none
unfolding channel_at
absent_of_keys state p c prov there free = elim (Option-cases (lookup c prov.channels)) [
  | inl absent ↦ ground (arith, there, absent)
  | inr (ch, found) ↦
      absurd (cc (free, contains-In (keys prov.channels) c (In-keys prov.channels c ch found)))
]

require_provider-ok :
    (state : Data) (p : Text) (prov : Provider)
    → require_provider state p ≡ ok prov
    → lookup p state.providers ≡ some prov
unfolding require_provider
require_provider-ok state p prov e = ground (arith, e)

-- The channel is recorded, and no other record changes.
pub record Put (state after : Data) (p c : Text) (ch : Channel) : Type 0 where
  pub stored : channel_at after p c ≡ some ch
  pub others : (q e : Text) → ¬ ((p ≡ q) × (c ≡ e)) → channel_at after q e ≡ channel_at state q e

Put-set_channel :
    (state : Data) (p c : Text) (ch : Channel) (prov : Provider)
    → lookup p state.providers ≡ some prov
    → Put state (set_channel p c ch state) p c ch
unfolding has_provider
Put-set_channel state p c ch prov found = record {
  stored = ground (arith, found, channel_at-set_channel state p c p c ch);
  others = λ q e other. ground (arith, found, other, channel_at-set_channel state p c q e ch);
}

pub repointed_own :
    (state : Data) (provider cid : Text) (ch : Channel) (port q : ℕ)
    → DistinctPorts state
    → channel_at state provider cid ≡ some ch
    → repointed state provider cid ch port ≡ ok q
    → (h : Holder) → q ≢ 0
    → Holds state h q
    → h ≡ channel provider cid
unfolding repointed
repointed_own state provider cid ch port q d found e h ne held =
    elim (Bool-cases (not (port == 0) && not (port == ch.port))) [
      | inl moved ↦
          let (same, pos, hi, free) =
            claim_port_free state port q (some (channel provider cid)) d
              (ground (arith, e, moved)) in
          cc (free h held)
      | inr stays ↦
          d.one_holder h (channel provider cid) q ne held (ch, found, ground (arith, e, stays))
    ]

module _ (host : Host) (lower country_code : Text → Text) (state after : Data) where
  -- If ports are distinct and each rule that names a channel names one that is there and
  -- switched on, an added channel has an id that nobody had and a port of its own; no other
  -- record changes, ports stay distinct, and the rules still do so.
  pub add_channel_lem :
      (provider country city wg label server cid : Text) (port : ℕ)
      → DistinctPorts state
      → TargetsLive state
      → add_channel host lower country_code state provider country city wg label port server
        ≡ ok (cid, after)
      → DistinctPorts after
        × TargetsLive after
        × (channel_at state provider cid ≡ none)
        × ((ch : Channel) × Put state after provider cid ch
            × (0 < ch.port)
            × (ch.enabled ≡ true)
            × (ch.wg ≡ wg))
  unfolding add_channel new_channel
  add_channel_lem provider country city wg label server cid port d t e =
      let (prov, found, e1) = >>=-eq-ok (require_provider state provider) _ e in
      let (claimed, ported, e2) = >>=-eq-ok (port_for host state port) _ e1 in
      let there : lookup provider state.providers ≡ some prov =
        require_provider-ok state provider prov found in
      let (pos, free) = port_for_free host state port claimed d ported in
      let name : next_id lower country_code (keys prov.channels) country city ≡ cid = cc in
      let ch = new_channel country city claimed (not (port == 0)) label server wg in
      let done : set_channel provider cid ch state ≡ after = cc in
      subst
        (λ (new : Data).
          DistinctPorts new
          × TargetsLive new
          × (channel_at state provider cid ≡ none)
          × ((ch : Channel) × Put state new provider cid ch
              × (0 < ch.port)
              × (ch.enabled ≡ true)
              × (ch.wg ≡ wg)))
        done
        (
          set_channel-DistinctPorts state provider cid ch d (λ h ne held. absurd (free h held)),
          set_channel-TargetsLive state provider cid ch t (λ old was up. refl),
          absent_of_keys state provider cid prov there (
              subst (λ (i : Text). contains (keys prov.channels) i ≡ false) name
                (next_id_fresh lower country_code (keys prov.channels) country city)),
          (ch, Put-set_channel state provider cid ch prov there, pos, refl, refl),
        )

  -- What an import may do to the records of a state.
  abbrev pub Imported : Text → Text → Text → ℕ → Bool → Data → Type 0
  Imported provider cid wg port created new =
      DistinctPorts new
      × TargetsLive new
      × ((ch : Channel) × Put state new provider cid ch
          × (ch.wg ≡ wg)
          × (channel_at state provider cid ≡ none → (created ≡ true) × (0 < ch.port))
          × ((old : Channel)
              → channel_at state provider cid ≡ some old
              → (created ≡ false) × (ch.enabled ≡ old.enabled) × (port ≡ 0 → ch.port ≡ old.port)))

  Imported-new :
      (provider cid country city wg label : Text) (port claimed : ℕ) (prov : Provider)
      → DistinctPorts state
      → TargetsLive state
      → lookup provider state.providers ≡ some prov
      → channel_at state provider cid ≡ none
      → port_for host state port ≡ ok claimed
      → Imported provider cid wg port true (
          set_channel provider cid
            (new_channel country city claimed (not (port == 0)) label [] wg)
            state)
  unfolding new_channel
  Imported-new provider cid country city wg label port claimed prov d t there absent ported =
      let ch = new_channel country city claimed (not (port == 0)) label [] wg in
      let (pos, free) = port_for_free host state port claimed d ported in
      (
        set_channel-DistinctPorts state provider cid ch d (λ h ne held. absurd (free h held)),
        set_channel-TargetsLive state provider cid ch t (λ old was up. refl),
        (
          ch,
          Put-set_channel state provider cid ch prov there,
          refl,
          λ none. (refl, pos),
          λ old found. cc (found, absent),
        ),
      )

  imported_again :
      (provider cid country city wg label : Text) (port claimed : ℕ) (prov : Provider)
      (old : Channel)
      → DistinctPorts state
      → TargetsLive state
      → lookup provider state.providers ≡ some prov
      → channel_at state provider cid ≡ some old
      → repointed state provider cid old port ≡ ok claimed
      → Imported provider cid wg port false (
          set_channel provider cid
            (imported country city claimed (not (port == 0)) label wg old)
            state)
  unfolding imported repointed
  imported_again provider cid country city wg label port claimed prov old d t there known ported =
      let ch = imported country city claimed (not (port == 0)) label wg old in
      (
        set_channel-DistinctPorts state provider cid ch d
            (repointed_own state provider cid old port claimed d known ported),
        set_channel-TargetsLive state provider cid ch t (λ was found up. cc (known, found, up)),
        (
          ch,
          Put-set_channel state provider cid ch prov there,
          refl,
          λ absent. cc (known, absent),
          λ was found.
              (refl, cc (known, found), λ unset. ground (arith, ported, unset, known, found)),
        ),
      )

  -- If ports are distinct and targets live, an import that succeeds creates the channel of its
  -- file name, or renews the one that is there, which keeps its switch and, without a declared
  -- port, its port; no other record changes, ports stay distinct, and targets stay live.
  pub upsert_channel_lem :
      (provider filename country city wg label : Text) (port : ℕ) (created : Bool)
      → DistinctPorts state
      → TargetsLive state
      → upsert_channel host lower state provider filename country city wg label port
        ≡ ok (created, after)
      → Imported provider (slug lower filename) wg port created after
  unfolding upsert_channel channel_at
  upsert_channel_lem provider filename country city wg label port created d t e =
      let cid = slug lower filename in
      let (prov, found, e1) = >>=-eq-ok (require_provider state provider) _ e in
      let there : lookup provider state.providers ≡ some prov =
        require_provider-ok state provider prov found in
      elim (Option-cases (lookup cid prov.channels)) [
        | inl absent ↦
            let (claimed, ported, e2) = >>=-eq-ok (port_for host state port) _ (rw absent at e1) in
            let new =
              Imported-new provider cid country city wg label port claimed prov d t there
                (ground (arith, there, absent)) ported in
            subst (λ (r : Bool × Data). Imported provider cid wg port r.0 r.1) (cc) new
        | inr (old, known) ↦
            let (claimed, ported, e2) =
              >>=-eq-ok (repointed state provider cid old port) _ (rw known at e1) in
            let new =
              imported_again provider cid country city wg label port claimed prov old d t there
                (ground (arith, there, known)) ported in
            subst (λ (r : Bool × Data). Imported provider cid wg port r.0 r.1) (cc) new
      ]
