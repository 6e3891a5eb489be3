-- ===== src/Tests/ReconnectTests.antt =====
-- The reconnect machine and the restart budget at concrete times.
use anyhop.Prelude.{
  ℕ, ◌+◌, ◌*◌, ◌<◌, ◌≤◌, ◌≡◌, refl, Bool, true, false, none, some, List, [], ◌∷◌, arith, Text,
  codes,
}
use anyhop.State.{Data, Channel, Reconnect, set_channel}
use anyhop.Prelude.Lists.{get_elem?}
use anyhop.Reconnect.{
  second, whole, failing_step, attempted, bookkeeping, given_up, no_bookkeeping,
  process_restart_allowed, note_process_restart, backoff, max_attempts,
}
use anyhop.Reconnect.Attempts.{
  after_failures, attempts_made, Due, attempts_made_le, after_failures-failed, attempts-spaced,
}
use anyhop.Reconnect.Pass.{run_pass, resolved}
use anyhop.Reconnect.Frame.{Framed, run_pass-Framed}
use anyhop.Tests.Sample.{nord, swiss, tunnel, sample}

abbrev at_second : ℕ → ℕ
at_second time = time * second

abbrev failing : List (ℕ × Text)
failing =
    (0, [])
    ∷ (at_second 30, [])
    ∷ (at_second 60, codes "a")
    ∷ (at_second 100, codes "b")
    ∷ (at_second 200, codes "c")
    ∷ (at_second 400, codes "d")
    ∷ (at_second 800, codes "e")
    ∷ (at_second 2000, codes "f")
    ∷ []

attempts_made_le_example : attempts_made failing no_bookkeeping + 0 ≤ max_attempts
attempts_made_le_example = attempts_made_le failing no_bookkeeping (omega arith)

failing-Due : Due failing no_bookkeeping
unfolding failing_step attempted whole backoff get_elem? bookkeeping given_up
failing-Due = (
  omega arith,
  (
    omega arith,
    (omega arith, (omega arith, (omega arith, (omega arith, (omega arith, (omega arith, tt)))))),
  ),
)

after_failures-failed_example : (after_failures failing no_bookkeeping).failed ≡ true
after_failures-failed_example =
    after_failures-failed failing no_bookkeeping failing-Due (omega arith)

abbrev third : Reconnect
third = record no_bookkeeping { fails = 2 }

abbrev trying : Reconnect
trying = record no_bookkeeping {
  fails = 3;
  attempts = 1;
  last_at = 60;
  next_at = 90;
  attempt_nonce = some (codes "a");
}

abbrev trying_again : Reconnect
trying_again = record trying {
  fails = 5;
  attempts = 2;
  last_at = 100;
  next_at = 160;
  attempt_nonce = some (codes "b");
}

attempts-spaced_example : at_second 60 + 4000000 + backoff 0 * second < at_second 100 + second
unfolding failing_step attempted whole backoff bookkeeping
attempts-spaced_example =
    attempts-spaced (at_second 60 + 4000000) (at_second 100) (codes "a") (codes "b") third trying
      trying_again ((at_second 70, codes "x") ∷ []) refl refl refl

abbrev requests : List ℕ
requests =
    at_second 0
    ∷ at_second 60
    ∷ at_second 120
    ∷ at_second 180
    ∷ at_second 240
    ∷ at_second 300
    ∷ at_second 22000
    ∷ []

abbrev failing_swiss : Channel
failing_swiss = record (tunnel "Switzerland" 2001) {
  probe =
      some (record { ok = false; error = some (codes "timeout"); ip = none; latency_ms = none });
  reconnect = some third;
}

abbrev broken : Data
broken = set_channel nord swiss failing_swiss sample

abbrev one_pass : Bool × List ℕ × Data
one_pass =
    run_pass (λ enabled port wg. port ∷ wg) (λ ref. codes "a") (λ provider. true)
      (λ ch. resolved (codes "fresh")) (at_second 60) (((nord, swiss), failing_swiss) ∷ []) []
      broken

run_pass-Framed_example :
    Framed broken one_pass.2
    × (one_pass.0 ≡ true
        → (process_restart_allowed (at_second 60) [] ≡ true)
          × (one_pass.1 ≡ note_process_restart (at_second 60) []))
    × (one_pass.0 ≡ false → one_pass.1 ≡ [])
run_pass-Framed_example =
    run_pass-Framed (λ enabled port wg. port ∷ wg) (λ ref. codes "a") (λ provider. true)
      (λ ch. resolved (codes "fresh")) (at_second 60) (((nord, swiss), failing_swiss) ∷ []) []
      broken one_pass.2 one_pass.0 one_pass.1 refl
