-- ===== src/State/Restore/Allocated.antt =====
-- About the ports that `restore_setup` of state.py allocates.
use mathlib.Core.Path.{subst}
use anyhop.Prelude.{
  ℕ, inl, inr, Option-cases, Bool-cases, ◌≡◌, ◌≢◌, ◌⊎◌, refl, sym, ◌∙◌, ◌&&◌, true, none, some,
  List, [], ◌∷◌, arith, Text, ◌==◌, contains, list_eq, nat_eq, pair_eq,
}
use anyhop.Result.{ok, >>=-eq-ok}
use anyhop.State.{Data, Channel, channel_at, set_channel}
use anyhop.State.Access.{channel_at-set_channel, router-set_channel}
use anyhop.State.Channels.{Ref}
use anyhop.State.Edits.Observed.{provider_of_channel}
use anyhop.State.Ports.{Host, next_free_port}
use anyhop.State.Ports.Fresh.{DistinctPorts, next_free_port_free}
use anyhop.State.Ports.Kept.{set_channel-DistinctPorts}
use anyhop.State.Restore.{allocate_port, allocate_ports}

-- The channel after the walk over the refs: it keeps a port that it has, and has one if it is among
-- them.
abbrev pub Filled : List Ref → Data → Text → Text → Channel → Type 0
Filled refs after p c ch =
    (q : ℕ) × (channel_at after p c ≡ some (record ch { port = q }))
    × (ch.port ≢ 0 → q ≡ ch.port)
    × (contains refs (p, c) ≡ true → q ≢ 0)

pub record Allocated (refs : List Ref) (before after : Data) : Type 0 where
  pub distinct : DistinctPorts after
  pub router_kept : after.router ≡ before.router
  pub filled :
      (p c : Text) (ch : Channel) → channel_at before p c ≡ some ch → Filled refs after p c ch
  pub bare : (p c : Text) → channel_at before p c ≡ none → channel_at after p c ≡ none

Allocated-same :
    (refs : List Ref) (state : Data)
    → DistinctPorts state
    → ((p c : Text) (ch : Channel)
        → channel_at state p c ≡ some ch
        → contains refs (p, c) ≡ true
        → ch.port ≢ 0)
    → Allocated refs state state
Allocated-same refs state d set = record {
  distinct = d;
  router_kept = refl;
  filled = λ p c ch found. (ch.port, found, (λ ne. refl), set p c ch found);
  bare = λ p c absent. absent;
}

Allocated-one :
    (state : Data) (p c : Text) (ch : Channel) (q : ℕ)
    → DistinctPorts state
    → channel_at state p c ≡ some ch
    → ch.port ≡ 0
    → q ≢ 0
    → DistinctPorts (set_channel p c (record ch { port = q }) state)
    → Allocated ((p, c) ∷ []) state (set_channel p c (record ch { port = q }) state)
unfolding contains
Allocated-one state p c ch q d known unset ne distinct =
    let new = record ch { port = q } in
    let there = provider_of_channel state p c ch known in
    record {
      distinct = distinct;
      router_kept = router-set_channel p c new state;
      filled = λ r e old found. elim (Bool-cases (p == r && c == e)) [
        | inl hit ↦
            let here : (p ≡ r) × (c ≡ e) = ground (arith, hit) in
            let same : ch ≡ old = cc in
            (
              q,
              subst
                  (λ (x : Channel).
                    channel_at (set_channel p c new state) r e ≡ some (record x { port = q }))
                  same (ground (arith, hit, there, channel_at-set_channel state p c r e new)),
              (λ set. absurd (set (cc))),
              λ listed. ne,
            )
        | inr miss ↦ (
          old.port,
          ground (arith, miss, found, channel_at-set_channel state p c r e new),
          (λ set. refl),
          λ listed. ground (arith, miss, listed),
        )
      ];
      bare = λ r e absent.
          ground (arith, absent, known, there, channel_at-set_channel state p c r e new);
    }

contains-one : (p c r f : Text) → contains {A = Ref} ((p, c) ∷ []) (r, f) ≡ true → (p ≡ r) × (c ≡ f)
unfolding contains
contains-one p c r f h = ground (arith, h)

contains-cons :
    (ref x : Ref) (refs : List Ref)
    → contains (ref ∷ refs) x ≡ true
    → (contains (ref ∷ []) x ≡ true) ⊎ (contains refs x ≡ true)
unfolding contains
contains-cons ref x refs h = ground (arith, h)

allocate_port-Allocated :
    (host : Host) (state after : Data) (ref : Ref)
    → DistinctPorts state
    → allocate_port host ref state ≡ ok after
    → Allocated (ref ∷ []) state after
unfolding allocate_port
allocate_port-Allocated host state after (p, c) d e = elim (Option-cases (channel_at state p c)) [
  | inl absent ↦ subst (Allocated ((p, c) ∷ []) state) (ground (arith, e, absent)) (
      Allocated-same ((p, c) ∷ []) state d (λ r f ch found listed.
        let (a, b) = contains-one p c r f listed in cc (a, b, absent, found)))
  | inr (ch, known) ↦ elim (Bool-cases (ch.port == 0)) [
    | inl unset ↦
        let (q, free, done) =
          >>=-eq-ok (next_free_port host state) _ (rw (known, allocate_port, unset) at e) in
        let (pos, alone) = next_free_port_free host state q free in
        subst (Allocated ((p, c) ∷ []) state) (cc) (
          Allocated-one state p c ch q d known (ground (arith, unset)) (λ z. omega (arith, pos, z))
            (set_channel-DistinctPorts state p c (record ch { port = q }) d
              (λ h ne held. absurd (alone h held))))
    | inr set ↦ subst (Allocated ((p, c) ∷ []) state) (ground (arith, e, known, set)) (
        Allocated-same ((p, c) ∷ []) state d (λ r f old found listed.
          let (a, b) = contains-one p c r f listed in
          let same : ch ≡ old = cc (a, b, known, found) in
          subst (λ (x : Channel). x.port ≢ 0) same (ground (arith, set))))
  ]
]

pub allocate_ports-Allocated :
    (host : Host) (refs : List Ref) (state after : Data)
    → DistinctPorts state
    → allocate_ports host refs state ≡ ok after
    → Allocated refs state after
unfolding allocate_ports contains
allocate_ports-Allocated host [] state after d e =
    subst (Allocated [] state) (cc) (Allocated-same [] state d (λ p c ch found listed. cc))
allocate_ports-Allocated host (ref ∷ refs) state after d e =
    let (next, now, later) = >>=-eq-ok (allocate_port host ref state) _ e in
    let one = allocate_port-Allocated host state next ref d now in
    let rest = allocate_ports-Allocated host refs next after one.distinct later in
    record {
      distinct = rest.distinct;
      router_kept = rest.router_kept ∙ one.router_kept;
      filled = λ p c ch found.
          let (q, there, kept, mine) = one.filled p c ch found in
          let (r, final, stays, others) = rest.filled p c (record ch { port = q }) there in
          (
            r,
            final,
            (λ ne. stays (λ z. ne (sym (kept ne) ∙ z)) ∙ kept ne),
            λ listed. elim (contains-cons ref (p, c) refs listed) [
              | inl head ↦
                  λ z. mine head (elim (nat_eq.dec q 0) [ yes u ↦ u | no ne ↦ sym (stays ne) ∙ z ])
              | inr tail ↦ others tail
            ],
          );
      bare = λ p c absent. rest.bare p c (one.bare p c absent);
    }
