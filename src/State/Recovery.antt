-- ===== src/State/Recovery.antt =====
-- The operations of the `Store` of state.py that move ports: the first port of the router, and the
-- way out of a port that another process holds and back. `sorted` is Python's sort of the pairs of
-- provider and id; `hosts` has what the host answers at each allocation in turn.
pub mod Moved
pub mod Restored
use mathlib.Core.Option.{Option}
use anyhop.Prelude.{
  ℕ, zero, suc, ◌+◌, Bool, true, false, not, ◌&&◌, ◌||◌, none, some, List, [], ◌∷◌, ◌++◌, Text,
  ◌==◌, contains, list_eq, nat_eq, bool_eq, option_eq, if◌then◌else◌,
}
use anyhop.Prelude.Dict.{Dict, keys}
use anyhop.Result.{Result, ok, err, ◌>>=◌}
use anyhop.State.{Data, Channel, Router, StateError, channel_at, set_channel}
use anyhop.State.Ports.{Host, Holder, channel, entrypoint, used_ports, next_free_port}
use anyhop.State.Channels.{Ref, provider_refs}

unfoldable pub set_router_port : ℕ → Data → Data
set_router_port port state = record state { router = record state.router { port = port } }

-- `ensure_router_port` where the snapshot has no port: what is stored by now stays.
unfoldable pub ensure_router_port : Host → Data → Result StateError (ℕ × Data)
ensure_router_port host state =
    if state.router.port == 0
    then (next_free_port host state >>= λ port. ok (port, set_router_port port state))
    else ok (state.router.port, state)

-- The first automatic port stays the home.
unfoldable pub home_or : Option ℕ → ℕ → Option ℕ
home_or none old = some old
home_or (some home) old = some home

-- A port that was moved or is held: its claimant, and the ports before and after.
pub record Move : Type 0 where
  pub holder : Holder
  pub old : ℕ
  pub new : ℕ

abbrev pub Moves : Type 0
Moves = List Move × List (Holder × ℕ) × Data

unfoldable pub moved_channel : Channel → ℕ → Channel
moved_channel ch new = record ch { port = new; port_home = home_or ch.port_home ch.port }

unfoldable pub move_channel : Text → Text → Channel → ℕ → Data → Data
move_channel provider cid ch new state = set_channel provider cid (moved_channel ch new) state

unfoldable pub move_router : ℕ → Data → Data
move_router new state = record state {
  router = record state.router {
    port = new;
    port_home = home_or state.router.port_home state.router.port;
  };
}

-- Whether the walk leaves the channel: it is not there, or its port is not asked for.
unfoldable pub left_alone : List ℕ → Option Channel → Bool
left_alone ports none = true
left_alone ports (some ch) = not (contains ports ch.port)

unfoldable pub reallocate_channels :
    (ℕ → Host)
    → List ℕ
    → List Ref
    → ℕ
    → List Move
    → List (Holder × ℕ)
    → Data
    → Result StateError (ℕ × Moves)
reallocate_channels hosts ports [] n moved held state = ok (n, (moved, held, state))
reallocate_channels hosts ports ((provider, cid) ∷ refs) n moved held state =
    elim (channel_at state provider cid) [
      | none ↦ reallocate_channels hosts ports refs n moved held state
      | some ch ↦ elim (contains ports ch.port) [
        | false ↦ reallocate_channels hosts ports refs n moved held state
        | true ↦ elim ch.port_explicit [
          | true ↦
              reallocate_channels hosts ports refs n moved
                (held ++ (channel provider cid, ch.port) ∷ []) state
          | false ↦ next_free_port (hosts n) state >>= λ new.
              reallocate_channels hosts ports refs (suc n)
                (moved ++ record { holder = channel provider cid; old = ch.port; new = new } ∷ [])
                held (move_channel provider cid ch new state)
        ]
      ]
    ]

unfoldable pub renumber_router :
    Host → List Move → List (Holder × ℕ) → Data → Result StateError Moves
renumber_router host moved held state = next_free_port host state >>= λ new. ok (
  moved ++ record { holder = entrypoint; old = state.router.port; new = new } ∷ [],
  held,
  move_router new state,
)

unfoldable pub reallocate_router : (ℕ → Host) → List ℕ → ℕ × Moves → Result StateError Moves
reallocate_router hosts ports (n, (moved, held, state)) =
    let old = state.router.port in
    if old == 0 || not (contains ports old)
    then ok (moved, held, state)
    else if state.router.port_explicit
    then ok (moved, held ++ (entrypoint, old) ∷ [], state)
    else renumber_router (hosts n) moved held state

unfoldable pub all_refs : Data → List Ref
all_refs state = provider_refs state (keys state.providers)

unfoldable pub reallocate_channel_ports :
    (List Ref → List Ref) → (ℕ → Host) → Data → List ℕ → Result StateError Moves
reallocate_channel_ports sorted hosts state ports =
    reallocate_channels hosts ports (sorted (all_refs state)) 0 [] [] state
    >>= reallocate_router hosts ports

-- `used.discard(port)`
unfoldable pub discard : ℕ → List ℕ → List ℕ
discard port [] = []
discard port (x ∷ used) = let rest = discard port used in if x == port then rest else x ∷ rest

-- The home that a port may go back to.
unfoldable pub home_of : (ℕ → Bool) → List ℕ → Bool → ℕ → Option ℕ → Option ℕ
home_of bindable used explicit current none = none
home_of bindable used explicit current (some home) =
    if not explicit && not (home == current) && not (contains used home) && bindable home
    then some home
    else none

unfoldable pub channel_home : (ℕ → Bool) → List ℕ → Option Channel → Option (Channel × ℕ)
channel_home bindable used none = none
channel_home bindable used (some ch) =
    elim (home_of bindable used ch.port_explicit ch.port ch.port_home) [
      | none ↦ none
      | some home ↦ some (ch, home)
    ]

unfoldable pub restore_channels :
    (ℕ → Bool) → List Ref → List ℕ → List (Holder × ℕ) → Data → List ℕ × List (Holder × ℕ) × Data
restore_channels bindable [] used restored state = (used, restored, state)
restore_channels bindable ((provider, cid) ∷ refs) used restored state =
    elim (channel_home bindable used (channel_at state provider cid)) [
      | none ↦ restore_channels bindable refs used restored state
      | some (ch, home) ↦
          restore_channels bindable refs (home ∷ discard ch.port used)
            (restored ++ (channel provider cid, home) ∷ [])
            (set_channel provider cid (record ch { port = home }) state)
    ]

-- `restore_home_ports` of a store whose data are those on disk; another one is left untouched.
unfoldable pub restore_home_ports :
    (List Ref → List Ref) → (ℕ → Bool) → Data → List (Holder × ℕ) × Data
restore_home_ports sorted bindable state =
    let (used, restored, after) =
      restore_channels bindable (sorted (all_refs state)) (keys (used_ports state)) [] state in
    elim (home_of bindable used after.router.port_explicit after.router.port
      after.router.port_home) [
        | none ↦ (restored, after)
        | some home ↦ (restored ++ (entrypoint, home) ∷ [], set_router_port home after)
      ]
