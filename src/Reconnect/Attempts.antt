-- ===== src/Reconnect/Attempts.antt =====
-- About the machine of reconnect.py for one channel whose probes keep failing.
use anyhop.Prelude.{
  ℕ, suc, ◌+◌, ◌-◌, ◌*◌, ◌<◌, ◌≤◌, ◌≡◌, refl, ◌∙◌, true, List, [], ◌∷◌, arith, Text, if◌then◌else◌,
}
use anyhop.Prelude.Lists.{length}
use anyhop.State.{Reconnect}
use anyhop.Reconnect.{
  max_attempts, second, whole, backoff, Step, skip, update, attempt, bookkeeping, given_up,
  attempted, failing_step, failed_probe,
}

-- What `int` cuts off is less than a second.
pub whole_lt : (now : ℕ) → now < whole now * second + second
unfolding whole
whole_lt now = omega arith

-- The bookkeeping after a pass that commits its step.
abbrev pub after_step : Reconnect → Step → Reconnect
after_step rc skip = rc
after_step rc (update replacement) = bookkeeping replacement
after_step rc (attempt new) = new

abbrev pub is_attempt : Step → ℕ
is_attempt (attempt rc) = 1
is_attempt _ = 0

-- Passes that all find the probe failed: the bookkeeping after them, and their attempts.
abbrev pub after_failures : List (ℕ × Text) → Reconnect → Reconnect
after_failures [] rc = rc
after_failures ((now, nonce) ∷ passes) rc =
    after_failures passes (after_step rc (failed_probe now nonce rc))

abbrev pub attempts_made : List (ℕ × Text) → Reconnect → ℕ
attempts_made [] rc = 0
attempts_made ((now, nonce) ∷ passes) rc =
    is_attempt (failed_probe now nonce rc)
    + attempts_made passes (after_step rc (failed_probe now nonce rc))

step-attempts :
    (now : ℕ) (nonce : Text) (rc : Reconnect)
    → rc.attempts ≤ max_attempts
    → ((after_step rc (failed_probe now nonce rc)).attempts
        ≡ is_attempt (failed_probe now nonce rc) + rc.attempts)
      × ((after_step rc (failed_probe now nonce rc)).attempts ≤ max_attempts)
unfolding failing_step given_up attempted bookkeeping
step-attempts now nonce rc le = ground (arith, le)

-- However often the probe fails without a success between, at most five attempts are made in
-- all, those recorded before included.
pub attempts_made_le :
    (passes : List (ℕ × Text)) (rc : Reconnect)
    → rc.attempts ≤ max_attempts
    → attempts_made passes rc + rc.attempts ≤ max_attempts
attempts_made_le [] rc le = omega (arith, le)
attempts_made_le ((now, nonce) ∷ passes) rc le =
    let next = after_step rc (failed_probe now nonce rc) in
    let (counted, kept) = step-attempts now nonce rc le in
    omega (arith, counted, attempts_made_le passes next kept)

-- How many due failures are left until the channel is given up.
abbrev pub rank : Reconnect → ℕ
rank rc = if rc.failed then 0 else suc ((2 - rc.fails) + (max_attempts - rc.attempts))

-- Each pass comes after the time that the one before has set.
abbrev pub Due : List (ℕ × Text) → Reconnect → Type 0
Due [] rc = Unit
Due ((now, nonce) ∷ passes) rc =
    (rc.next_at * second ≤ now) × Due passes (after_step rc (failed_probe now nonce rc))

step-rank :
    (now : ℕ) (nonce : Text) (rc : Reconnect)
    → rc.next_at * second ≤ now
    → rank (after_step rc (failed_probe now nonce rc)) ≤ rank rc - 1
unfolding failing_step given_up attempted bookkeeping
step-rank now nonce rc due = ground (arith, due)

-- A channel whose probe fails in every pass, each pass after the time that the one before has
-- set, is given up after as many passes as its rank, which is at most eight.
pub after_failures-failed :
    (passes : List (ℕ × Text)) (rc : Reconnect)
    → Due passes rc
    → rank rc ≤ length passes
    → (after_failures passes rc).failed ≡ true
after_failures-failed [] rc due le = ground (arith, le)
after_failures-failed ((now, nonce) ∷ passes) rc (on_time, due) le =
    after_failures-failed passes (after_step rc (failed_probe now nonce rc)) due
      (omega (arith, le, step-rank now nonce rc on_time))

step-next_at :
    (now : ℕ) (nonce : Text) (rc : Reconnect)
    → is_attempt (failed_probe now nonce rc) ≡ 0
    → (after_step rc (failed_probe now nonce rc)).next_at ≡ rc.next_at
unfolding failing_step given_up bookkeeping
step-next_at now nonce rc none_made = ground (arith, none_made)

after_failures-next_at :
    (passes : List (ℕ × Text)) (rc : Reconnect)
    → attempts_made passes rc ≡ 0
    → (after_failures passes rc).next_at ≡ rc.next_at
after_failures-next_at [] rc none_made = refl
after_failures-next_at ((now, nonce) ∷ passes) rc none_made =
    after_failures-next_at passes (after_step rc (failed_probe now nonce rc))
      (omega (arith, none_made))
    ∙ step-next_at now nonce rc (omega (arith, none_made))

attempt-due :
    (now : ℕ) (nonce : Text) (rc new : Reconnect)
    → failed_probe now nonce rc ≡ attempt new
    → (rc.next_at * second ≤ now)
      × (new.next_at ≡ whole now + backoff rc.attempts)
      × (new.attempts ≡ rc.attempts + 1)
unfolding failing_step attempted
attempt-due now nonce rc new e = ground (arith, e)

-- Between an attempt and the next one more than its backoff less a second goes by, whatever
-- failures lie between; the second is what the stored time loses by `int`.
pub attempts-spaced :
    (now later : ℕ) (nonce next_nonce : Text) (rc new newer : Reconnect) (passes : List (ℕ × Text))
    → failed_probe now nonce rc ≡ attempt new
    → attempts_made passes new ≡ 0
    → failed_probe later next_nonce (after_failures passes new) ≡ attempt newer
    → now + backoff rc.attempts * second < later + second
attempts-spaced now later nonce next_nonce rc new newer passes first none_made second =
    let (was, set, count) = attempt-due now nonce rc new first in
    let (due, next_set, more) =
      attempt-due later next_nonce (after_failures passes new) newer second in
    omega (arith, set, due, after_failures-next_at passes new none_made, whole_lt now)
