-- ===== src/State/Ports.antt =====
-- The ports of state.py: `_used_ports`, `_claim_port` and `_next_free_port`.
pub mod Used
pub mod Fresh
pub mod Kept
use native.Mathlib.Decide.{ℕ_discrete}
use anyhop.Prelude.{
  ℕ, zero, suc, ◌+◌, ◌-◌, ◌<◌, Bool, true, false, not, ◌&&◌, ◌||◌, Option, none, some, List, [],
  ◌∷◌, Text, Eq, ◌==◌, ltb, leb, list_eq, nat_eq, option_eq, if◌then◌else◌,
}
use anyhop.Prelude.Dict.{Dict, lookup, assign, items, has_key}
use anyhop.Result.{Result, ok, err}
use anyhop.State.{
  Data, Provider, Channel, StateError, bad_port, port_in_use, no_free_port, bad_port_base,
}

-- The claimant of a port: the code writes it as a text, `channel <provider>/<cid>` or
-- `the router entrypoint`.
pub data Holder : Type 0 where
  channel : Text → Text → Holder
  entrypoint : Holder

Holder-discrete : Discrete Holder
Holder-discrete = hlevel ℕ_discrete

instance unfoldable pub holder_eq : Eq Holder
unfolding Holder-discrete
holder_eq = record { dec = Holder-discrete }

unfoldable pub note_port : ℕ → Holder → Dict ℕ Holder → Dict ℕ Holder
note_port port holder used = if port == 0 then used else assign port holder used

unfoldable pub note_channels : Text → List (Text × Channel) → Dict ℕ Holder → Dict ℕ Holder
note_channels provider [] used = used
note_channels provider ((cid, ch) ∷ rest) used =
    note_channels provider rest (note_port ch.port (channel provider cid) used)

unfoldable pub note_providers : List (Text × Provider) → Dict ℕ Holder → Dict ℕ Holder
note_providers [] used = used
note_providers ((provider, prov) ∷ rest) used =
    note_providers rest (note_channels provider (items prov.channels) used)

unfoldable pub used_ports : Data → Dict ℕ Holder
used_ports state =
    note_port state.router.port entrypoint (note_providers (items state.providers) [])

-- `{p: h for p, h in used.items() if h != own}`
unfoldable pub without_holder : Holder → Dict ℕ Holder → Dict ℕ Holder
without_holder own [] = []
without_holder own ((port, holder) ∷ used) =
    let rest = without_holder own used in if holder == own then rest else (port, holder) ∷ rest

unfoldable pub excluding : Option Holder → Dict ℕ Holder → Dict ℕ Holder
excluding none used = used
excluding (some own) used = without_holder own used

unfoldable pub claim_port : Data → ℕ → Option Holder → Result StateError ℕ
unfolding excluding
claim_port state port exclude =
    if not (ltb 0 port && leb port 65535)
    then err (bad_port port)
    else if has_key port (excluding exclude (used_ports state))
    then err (port_in_use port)
    else ok port

-- `ANYHOP_PORT_BASE`: not set, no number, or the number that `int` reads.
pub data PortBase : Type 0 where
  unset malformed : PortBase
  start : ℕ → PortBase

-- What the host answers while a port is looked for: the environment variable, whether a listener
-- could bind a port, and the ephemeral port of each attempt, which is never 0.
pub record Host : Type 0 where
  pub base : PortBase
  pub os_port_free : ℕ → Bool
  pub ephemeral : ℕ → ℕ
  pub ephemeral_pos : (attempt : ℕ) → 0 < ephemeral attempt

-- `for port in range(start, 65536)`, with as many rounds left as the fuel.
unfoldable pub scan_ports : (ℕ → Bool) → Dict ℕ Holder → ℕ → ℕ → Result StateError ℕ
scan_ports bindable used zero port = err no_free_port
scan_ports bindable used (suc rounds) port =
    let rest = scan_ports bindable used rounds (port + 1) in
    if not (has_key port used) && bindable port then ok port else rest

-- `for _ in range(100)`
unfoldable pub try_ephemeral : (ℕ → ℕ) → Dict ℕ Holder → ℕ → ℕ → Result StateError ℕ
try_ephemeral ephemeral used zero attempt = err no_free_port
try_ephemeral ephemeral used (suc rounds) attempt =
    let rest = try_ephemeral ephemeral used rounds (attempt + 1) in
    if has_key (ephemeral attempt) used then rest else ok (ephemeral attempt)

unfoldable pub next_free_port : Host → Data → Result StateError ℕ
next_free_port host state = elim host.base [
  | unset ↦ try_ephemeral host.ephemeral (used_ports state) 100 0
  | malformed ↦ err bad_port_base
  | start base ↦
      if ltb 0 base && leb base 65535
      then scan_ports host.os_port_free (used_ports state) (65536 - base) base
      else err bad_port_base
]
