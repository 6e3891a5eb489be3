-- ===== src/Reconnect/Frame.antt =====
-- About `run_pass` of reconnect.py: what it leaves as it is.
use mathlib.Core.Path.{subst}
use anyhop.Prelude.{
  ℕ, inl, inr, Option-cases, Bool-cases, ◌≡◌, refl, sym, ap, ◌∙◌, Bool, true, false, ◌&&◌, Option,
  none, some, List, [], ◌∷◌, ◌++◌, arith, Text, ◌==◌, contains, list_eq, nat_eq, pair_eq, option_eq,
}
use anyhop.State.{Data, Channel, Reconnect, channel_at, set_channel}
use anyhop.State.Access.{router-set_channel}
use anyhop.State.Channels.{Ref}
use anyhop.State.Edits.{
  guarded, claimable, prepare_reconnects, finishable, finished, finish_reconnect_attempt,
}
use anyhop.State.Edits.Observed.{guarded-some, channel_at-written}
use anyhop.Reconnect.{process_restart_allowed, note_process_restart}
use anyhop.Reconnect.Pass.{
  Update, Action, Resolution, settled, perform, plan_updates, plan_actions, run_pass,
}

-- A channel without its bookkeeping and its tunnel parameters.
abbrev pub frame : Option Channel → Option Channel
frame none = none
frame (some ch) = some (record ch { reconnect = none; wg = [] })

abbrev pub Framed : Data → Data → Type 0
Framed before after =
    ((q e : Text) → frame (channel_at after q e) ≡ frame (channel_at before q e))
    × (after.router ≡ before.router)

Framed-set_channel :
    (before state : Data) (p c : Text) (old ch : Channel)
    → Framed before state
    → channel_at state p c ≡ some old
    → frame (some ch) ≡ frame (some old)
    → Framed before (set_channel p c ch state)
Framed-set_channel before state p c old ch (same, router) there alike =
    ((λ q e. one q e ∙ same q e), router-set_channel p c ch state ∙ router)
  where
    one :
        (q e : Text)
        → frame (channel_at (set_channel p c ch state) q e) ≡ frame (channel_at state q e)
    one q e = elim (Bool-cases (p == q && c == e)) [
      | inl hit ↦
          let here : (p ≡ q) × (c ≡ e) = ground (arith, hit) in
          let new : channel_at (set_channel p c ch state) q e ≡ some ch =
            ground (arith, hit, channel_at-written state p c q e old ch there) in
          let was : channel_at state q e ≡ some old = cc (here.0, here.1, there) in
          ap frame new ∙ alike ∙ sym (ap frame was)
      | inr miss ↦ ap frame (ground (arith, miss, channel_at-written state p c q e old ch there))
    ]

module _ (digest : Bool → ℕ → Text → Text) (before : Data) where
  prepare_reconnects-Framed :
      (updates : List Update) (state : Data) (applied : List Ref)
      → Framed before state
      → Framed before (prepare_reconnects digest updates state applied).1
  unfolding prepare_reconnects
  prepare_reconnects-Framed [] state applied f = f
  prepare_reconnects-Framed (((p, c), print, expected, replacement) ∷ updates) state applied f =
      elim (Option-cases (guarded (claimable digest print expected) state (p, c))) [
        | inl stale ↦
            rw (stale, prepare_reconnects) (prepare_reconnects-Framed updates state applied f)
        | inr (ch, holds) ↦
            let (there, matches) =
              guarded-some (claimable digest print expected) state p c ch holds in
            rw (holds, prepare_reconnects)
              (prepare_reconnects-Framed updates _ _ (
                Framed-set_channel before state p c ch (record ch { reconnect = replacement }) f
                  there refl))
      ]

  frame-finished :
      (reconnect : Option Reconnect) (wg : Option Text) (ch : Channel)
      → frame (some (finished digest reconnect wg ch)) ≡ frame (some ch)
  unfolding finished
  frame-finished reconnect none ch = refl
  frame-finished reconnect (some wg) ch = refl

  finish_reconnect_attempt-Framed :
      (state : Data) (ref : Ref) (print nonce : Text) (reconnect : Option Reconnect)
      (wg : Option Text)
      → Framed before state
      → Framed before (finish_reconnect_attempt digest state ref print nonce reconnect wg).1
  unfolding finish_reconnect_attempt
  finish_reconnect_attempt-Framed state (p, c) print nonce reconnect wg f =
      elim (Option-cases (guarded (finishable digest print nonce) state (p, c))) [
        | inl stale ↦ rw (finish_reconnect_attempt, stale) f
        | inr (ch, holds) ↦
            let (there, matches) =
              guarded-some (finishable digest print nonce) state p c ch holds in
            rw (finish_reconnect_attempt, holds)
              (Framed-set_channel before state p c ch (finished digest reconnect wg ch) f there
                (frame-finished reconnect wg ch))
      ]

  perform-Framed :
      (nonce_for : Ref → Text) (is_token : Text → Bool) (resolve : Channel → Resolution)
      (claimed : List Ref) (actions : List Action) (state : Data) (restarts : List Ref)
      → Framed before state
      → Framed before (perform digest nonce_for is_token resolve claimed actions state restarts).1
  unfolding perform
  perform-Framed nonce_for is_token resolve claimed [] state restarts f = f
  perform-Framed nonce_for is_token resolve claimed (action ∷ actions) state restarts f =
      elim (Bool-cases (contains claimed action.ref)) [
        | inr other ↦
            rw (other, perform)
              (perform-Framed nonce_for is_token resolve claimed actions state restarts f)
        | inl mine ↦ elim (Bool-cases (is_token action.ref.0)) [
          | inr file ↦
              rw (mine, perform, file)
                (perform-Framed nonce_for is_token resolve claimed actions state
                  (restarts ++ action.ref ∷ []) f)
          | inl token ↦
              rw (mine, perform, token)
                (perform-Framed nonce_for is_token resolve claimed actions _ restarts (
                  finish_reconnect_attempt-Framed state action.ref action.print action.nonce
                    (some (settled action (resolve action.ch)).0)
                    (settled action (resolve action.ch)).1 f))
        ]
      ]

-- A pass leaves the rules, the switches of the router and each channel but for its bookkeeping
-- and its tunnel parameters as they are, whatever the channels were read as; it asks for a
-- restart only if the budget allows one and then notes it, and otherwise leaves the budget
-- alone.
pub run_pass-Framed :
    (digest : Bool → ℕ → Text → Text) (nonce_for : Ref → Text) (is_token : Text → Bool)
    (resolve : Channel → Resolution) (now : ℕ) (channels : List (Ref × Channel)) (stamps : List ℕ)
    (state after : Data) (restart : Bool) (later : List ℕ)
    → run_pass digest nonce_for is_token resolve now channels stamps state ≡ (restart, later, after)
    → Framed state after
      × (restart ≡ true
          → (process_restart_allowed now stamps ≡ true) × (later ≡ note_process_restart now stamps))
      × (restart ≡ false → later ≡ stamps)
unfolding run_pass
run_pass-Framed digest nonce_for is_token resolve now channels stamps state after restart later e =
    let prepared =
      prepare_reconnects digest (plan_updates digest nonce_for now channels) state [] in
    let done =
      perform digest nonce_for is_token resolve prepared.0
        (plan_actions digest nonce_for now channels) prepared.1 [] in
    let f : Framed state done.1 =
      perform-Framed digest state nonce_for is_token resolve prepared.0
        (plan_actions digest nonce_for now channels) prepared.1 []
        (prepare_reconnects-Framed digest state (plan_updates digest nonce_for now channels) state
          [] ((λ q e. refl), refl)) in
    elim (Bool-cases (done.0 == [])) [
      | inl quiet ↦
          let same : ◌≡◌ {A = Bool × List ℕ × Data} (false, stamps, done.1)
              (restart, later, after) =
            ground (arith, e, quiet) in
          (
            subst (λ (t : Bool × List ℕ × Data). Framed state t.2) same f,
            (λ on. absurd (cc (on, ap (λ (t : Bool × List ℕ × Data). t.0) same))),
            λ off. sym (ap (λ (t : Bool × List ℕ × Data). t.1) same),
          )
      | inr asked ↦ elim (Bool-cases (process_restart_allowed now stamps)) [
        | inl free ↦
            let same : ◌≡◌ {A = Bool × List ℕ × Data}
                (true, note_process_restart now stamps, done.1) (restart, later, after) =
              ground (arith, e, asked, free) in
            (
              subst (λ (t : Bool × List ℕ × Data). Framed state t.2) same f,
              (λ on. (free, sym (ap (λ (t : Bool × List ℕ × Data). t.1) same))),
              λ off. absurd (cc (off, ap (λ (t : Bool × List ℕ × Data). t.0) same)),
            )
        | inr full ↦
            let same : ◌≡◌ {A = Bool × List ℕ × Data} (false, stamps, done.1)
                (restart, later, after) =
              ground (arith, e, asked, full) in
            (
              subst (λ (t : Bool × List ℕ × Data). Framed state t.2) same f,
              (λ on. absurd (cc (on, ap (λ (t : Bool × List ℕ × Data). t.0) same))),
              λ off. sym (ap (λ (t : Bool × List ℕ × Data). t.1) same),
            )
      ]
    ]
