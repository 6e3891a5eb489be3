-- ===== src/Reconnect.antt =====
-- reconnect.py: the state machine that recovers channels whose probes fail, and the budget of
-- restarts of the process. What is stored is in whole seconds; the clock has ticks.
pub mod Attempts
pub mod Budget
pub mod Pass
pub mod Frame
use anyhop.Prelude.{
  ℕ, zero, suc, ◌+◌, ◌*◌, ◌/◌, Bool, true, false, not, ◌&&◌, ◌||◌, Option, none, some, List, [],
  ◌∷◌, ◌++◌, Text, ◌==◌, contains, codes, ltb, leb, list_eq, nat_eq, option_eq, pair_eq,
  if◌then◌else◌,
}
use anyhop.Prelude.Decimal.{show}
use anyhop.Prelude.Lists.{length, get_elem?, select}
use anyhop.State.{Data, Channel, Probe, Reconnect, reconnect_eq}
use anyhop.State.Channels.{Ref}
use anyhop.State.Edits.{fingerprint, prepare_reconnects, finish_reconnect_attempt}

-- `time.time()` is a float. From 2004 to 2038 its values are the multiples of 2 ** -22 seconds, so a
-- time is a number of ticks, and a second has as many as this.
abbrev pub second : ℕ
second = 4194304

-- `int(now)`
unfoldable pub whole : ℕ → ℕ
whole now = now / second

abbrev pub fail_threshold : ℕ
fail_threshold = 3

abbrev pub max_attempts : ℕ
max_attempts = 5

abbrev pub backoff_table : List ℕ
backoff_table = 30 ∷ 60 ∷ 120 ∷ 300 ∷ 600 ∷ []

abbrev pub process_restart_limit : ℕ
process_restart_limit = 5

abbrev pub process_restart_window : ℕ
process_restart_window = 21600

unfoldable pub backoff : ℕ → ℕ
unfolding get_elem?
backoff attempt = elim (get_elem? backoff_table attempt) [ none ↦ 600 | some seconds ↦ seconds ]

-- `_budget_stamps` of a file that holds the stamps.
unfoldable pub budget_stamps : ℕ → List ℕ → List ℕ
budget_stamps now stamps =
    select (λ stamp. leb now ((stamp + process_restart_window) * second)) stamps

unfoldable pub process_restart_allowed : ℕ → List ℕ → Bool
process_restart_allowed now stamps = ltb (length (budget_stamps now stamps)) process_restart_limit

unfoldable pub note_process_restart : ℕ → List ℕ → List ℕ
note_process_restart now stamps = budget_stamps now stamps ++ whole now ∷ []

abbrev pub no_bookkeeping : Reconnect
no_bookkeeping = record {
  fails = 0;
  attempts = 0;
  last_at = 0;
  next_at = 0;
  failed = false;
  error = none;
  attempt_nonce = none;
}

-- `dict(ch.reconnect or {})`
unfoldable pub bookkeeping : Option Reconnect → Reconnect
bookkeeping none = no_bookkeeping
bookkeeping (some rc) = rc

unfoldable pub probe_ok : Option Probe → Bool
probe_ok none = false
probe_ok (some probe) = probe.ok

unfoldable pub stopped : Option Probe → Bool
stopped none = false
stopped (some probe) = probe.error == some (codes "stopped")

-- What a pass does with one channel: nothing, a change of its bookkeeping, or an attempt.
pub data Step : Type 0 where
  skip : Step
  update : Option Reconnect → Step
  attempt : Reconnect → Step

unfoldable pub given_up : Reconnect → Reconnect
given_up rc = record rc {
  failed = true;
  error = some (codes "gave up after " ++ show rc.attempts ++ codes " reconnect attempts");
}

unfoldable pub attempted : ℕ → Text → Reconnect → Reconnect
attempted now nonce rc = record rc {
  attempts = rc.attempts + 1;
  last_at = whole now;
  next_at = whole now + backoff rc.attempts;
  attempt_nonce = some nonce;
}

-- A failed probe of a channel that is not given up, its failure counted.
unfoldable pub failing_step : ℕ → Text → Reconnect → Step
failing_step now nonce rc =
    if ltb rc.fails fail_threshold
    then update (some rc)
    else if ltb now (rc.next_at * second)
    then update (some rc)
    else if leb max_attempts rc.attempts
    then update (some (given_up rc))
    else attempt (attempted now nonce rc)

-- A failed probe: a channel that is given up is left alone.
abbrev pub failed_probe : ℕ → Text → Reconnect → Step
failed_probe now nonce rc =
    if rc.failed then skip else failing_step now nonce (record rc { fails = rc.fails + 1 })

-- The body of the first loop of `run_pass`.
unfoldable pub plan_channel : ℕ → Text → Channel → Step
plan_channel now nonce ch =
    let rc = bookkeeping ch.reconnect in
    if not ch.enabled
    then skip
    else if probe_ok ch.probe
    then (if ch.reconnect == none then skip else update none)
    else if stopped ch.probe
    then skip
    else failed_probe now nonce rc
