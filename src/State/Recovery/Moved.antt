-- ===== src/State/Recovery/Moved.antt =====
-- About `reallocate_channel_ports` of state.py.
use mathlib.Core.Path.{subst}
use anyhop.Prelude.{
  ℕ, suc, inl, inr, Option-cases, Bool-cases, ◌≡◌, ◌≢◌, refl, sym, ap, ◌∙◌, true, false, not, ◌||◌,
  some, List, [], ◌∷◌, ◌++◌, arith, Text, ◌==◌, contains, list_eq, nat_eq,
}
use anyhop.Result.{ok, >>=-eq-ok}
use anyhop.State.{Data, Channel, channels_of, channel_at}
use anyhop.State.Access.{channel_at-set_channel, router-set_channel}
use anyhop.State.Channels.{Ref}
use anyhop.State.Ports.{Holder, channel, entrypoint, Host, next_free_port}
use anyhop.State.Ports.Used.{Holds}
use anyhop.State.Ports.Fresh.{DistinctPorts, next_free_port_free}
use anyhop.State.Ports.Kept.{set_channel-DistinctPorts}
use anyhop.State.Recovery.{
  Move, Moves, moved_channel, move_channel, move_router, reallocate_channels, renumber_router,
  reallocate_router, all_refs, reallocate_channel_ports,
}

-- A channel with a declared port is as it was.
abbrev pub DeclaredKept : Data → Data → Type 0
DeclaredKept before after =
    (p c : Text) (ch : Channel)
    → channel_at before p c ≡ some ch
    → ch.port_explicit ≡ true
    → channel_at after p c ≡ some ch

move_channel-DistinctPorts :
    (host : Host) (state : Data) (p c : Text) (ch : Channel) (new : ℕ)
    → DistinctPorts state
    → next_free_port host state ≡ ok new
    → DistinctPorts (move_channel p c ch new state)
unfolding move_channel moved_channel
move_channel-DistinctPorts host state p c ch new d e =
    let (pos, free) = next_free_port_free host state new e in
    set_channel-DistinctPorts state p c (moved_channel ch new) d (λ h ne held. absurd (free h held))

router-move_channel :
    (p c : Text) (ch : Channel) (new : ℕ) (state : Data)
    → (move_channel p c ch new state).router ≡ state.router
unfolding move_channel
router-move_channel p c ch new state = router-set_channel p c (moved_channel ch new) state

move_channel-DeclaredKept :
    (state : Data) (p c : Text) (ch : Channel) (new : ℕ)
    → channel_at state p c ≡ some ch
    → ch.port_explicit ≡ false
    → DeclaredKept state (move_channel p c ch new state)
unfolding move_channel
move_channel-DeclaredKept state p c ch new there automatic q e kept found declared = ground (
  arith,
  there,
  automatic,
  found,
  declared,
  channel_at-set_channel state p c q e (moved_channel ch new),
)

channel_at_providers :
    (state after : Data) (p c : Text)
    → after.providers ≡ state.providers
    → channel_at after p c ≡ channel_at state p c
unfolding channel_at channels_of
channel_at_providers state after p c same = ground (arith, same)

pub router_moved-DistinctPorts :
    (state after : Data) (new : ℕ)
    → DistinctPorts state
    → ((h : Holder) → new ≢ 0 → ¬ Holds state h new)
    → after.providers ≡ state.providers
    → after.router.port ≡ new
    → DistinctPorts after
unfolding channel_at
router_moved-DistinctPorts state after new d free same port = record { one_holder = one }
  where
    old : (p c : Text) (x : ℕ) → Holds after (channel p c) x → Holds state (channel p c) x
    old p c x (ch, found, at) = (ch, sym (channel_at_providers state after p c same) ∙ found, at)

    one : (h k : Holder) (x : ℕ) → x ≢ 0 → Holds after h x → Holds after k x → h ≡ k
    one (channel p c) (channel q e) x ne hh hk =
        d.one_holder (channel p c) (channel q e) x ne (old p c x hh) (old q e x hk)
    one (channel p c) entrypoint x ne hh hk = absurd (
        free (channel p c) (λ z. ne (sym hk ∙ port ∙ z))
          (subst (Holds state (channel p c)) (sym hk ∙ port) (old p c x hh)))
    one entrypoint (channel q e) x ne hh hk = absurd (
        free (channel q e) (λ z. ne (sym hh ∙ port ∙ z))
          (subst (Holds state (channel q e)) (sym hh ∙ port) (old q e x hk)))
    one entrypoint entrypoint x ne hh hk = refl

-- What a walk over refs keeps.
abbrev Kept : Data → Data → Type 0
Kept before after = DistinctPorts after × DeclaredKept before after × (after.router ≡ before.router)

reallocate_channels-Kept :
    (hosts : ℕ → Host) (ports : List ℕ) (refs : List Ref) (n : ℕ) (moved : List Move)
    (held : List (Holder × ℕ)) (state : Data) (m : ℕ) (result : Moves)
    → DistinctPorts state
    → reallocate_channels hosts ports refs n moved held state ≡ ok (m, result)
    → Kept state result.2
unfolding reallocate_channels
reallocate_channels-Kept hosts ports [] n moved held state m result d e =
    let same : state ≡ result.2 = cc in
    subst (Kept state) same (d, (λ p c ch found declared. found), refl)
reallocate_channels-Kept hosts ports ((p, c) ∷ refs) n moved held state m result d e =
    elim (Option-cases (channel_at state p c)) [
      | inl absent ↦
          reallocate_channels-Kept hosts ports refs n moved held state m result d
            (ground (arith, e, absent))
      | inr (ch, there) ↦ elim (Bool-cases (contains ports ch.port)) [
        | inr other ↦
            reallocate_channels-Kept hosts ports refs n moved held state m result d
              (ground (arith, e, there, other))
        | inl asked ↦ elim (Bool-cases ch.port_explicit) [
          | inl declared ↦
              reallocate_channels-Kept hosts ports refs n moved
                (held ++ (channel p c, ch.port) ∷ []) state m result d
                (ground (arith, e, there, asked, declared))
          | inr automatic ↦
              let (new, port, rest) =
                >>=-eq-ok (next_free_port (hosts n) state) _
                  (rw (there, reallocate_channels, asked, automatic) at e) in
              let next = move_channel p c ch new state in
              let (distinct, kept, router) =
                reallocate_channels-Kept hosts ports refs (suc n) _ held next m result
                  (move_channel-DistinctPorts (hosts n) state p c ch new d port) rest in
              (
                distinct,
                (λ q k it found declared.
                    kept q k it
                      (move_channel-DeclaredKept state p c ch new there automatic q k it found
                        declared)
                      declared),
                router ∙ router-move_channel p c ch new state,
              )
        ]
      ]
    ]

-- What the whole move keeps.
abbrev pub Recovered : Data → Data → Type 0
Recovered before after =
    DistinctPorts after
    × DeclaredKept before after
    × (before.router.port_explicit ≡ true → after.router.port ≡ before.router.port)

router_only :
    (before state after : Data) (new : ℕ)
    → Kept before state
    → state.router.port_explicit ≡ false
    → ((h : Holder) → ¬ Holds state h new)
    → after.providers ≡ state.providers
    → after.router.port ≡ new
    → Recovered before after
router_only before state after new (d, kept, router) automatic free same port = (
  router_moved-DistinctPorts state after new d (λ h ne. free h) same port,
  (λ p c ch found declared. channel_at_providers state after p c same ∙ kept p c ch found declared),
  λ declared. cc (declared, automatic, router),
)

renumber_router-Recovered :
    (host : Host) (before state : Data) (moved : List Move) (held : List (Holder × ℕ))
    (result : Moves)
    → Kept before state
    → state.router.port_explicit ≡ false
    → renumber_router host moved held state ≡ ok result
    → Recovered before result.2
unfolding renumber_router move_router
renumber_router-Recovered host before state moved held result k automatic e =
    let (new, port, done) = >>=-eq-ok (next_free_port host state) _ e in
    let same : move_router new state ≡ result.2 = cc in
    let (pos, free) = next_free_port_free host state new port in
    subst (Recovered before) same
      (router_only before state (move_router new state) new k automatic free refl refl)

reallocate_router-Recovered :
    (hosts : ℕ → Host) (ports : List ℕ) (before : Data) (n : ℕ) (moves result : Moves)
    → Kept before moves.2
    → reallocate_router hosts ports (n, moves) ≡ ok result
    → Recovered before result.2
unfolding reallocate_router
reallocate_router-Recovered hosts ports before n (moved, held, state) result (d, kept, router) e =
    elim (Bool-cases (state.router.port == 0 || not (contains ports state.router.port))) [
      | inl alone ↦
          let same : state ≡ result.2 = ground (arith, e, alone) in
          subst (Recovered before) same (d, kept, λ declared. ap (λ r. r.port) router)
      | inr asked ↦ elim (Bool-cases state.router.port_explicit) [
        | inl declared ↦
            let same : state ≡ result.2 = ground (arith, e, asked, declared) in
            subst (Recovered before) same (d, kept, λ it. ap (λ r. r.port) router)
        | inr automatic ↦
            renumber_router-Recovered (hosts n) before state moved held result (d, kept, router)
              automatic (ground (arith, e, asked, automatic))
      ]
    ]

-- If stolen ports are moved, ports that were distinct stay distinct, each channel with a
-- declared port is as it was, and a declared port of the router stays.
pub reallocate_channel_ports-Recovered :
    (sorted : List Ref → List Ref) (hosts : ℕ → Host) (state : Data) (ports : List ℕ)
    (result : Moves)
    → DistinctPorts state
    → reallocate_channel_ports sorted hosts state ports ≡ ok result
    → Recovered state result.2
unfolding reallocate_channel_ports
reallocate_channel_ports-Recovered sorted hosts state ports result d e =
    let ((n, moves), walked, rest) =
      >>=-eq-ok (reallocate_channels hosts ports (sorted (all_refs state)) 0 [] [] state) _ e in
    reallocate_router-Recovered hosts ports state n moves result
      (reallocate_channels-Kept hosts ports (sorted (all_refs state)) 0 [] [] state n moves d
        walked)
      rest
