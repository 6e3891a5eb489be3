-- ===== src/Reconnect/Budget.antt =====
-- About the restart budget of reconnect.py.
use anyhop.Prelude.{ℕ, ◌+◌, ◌-◌, ◌*◌, leb, ◌≤◌, true, false, List, [], ◌∷◌, ◌++◌}
use anyhop.Prelude.Lists.{length, select}
use anyhop.Reconnect.{
  second, process_restart_window, process_restart_limit, budget_stamps, process_restart_allowed,
  note_process_restart,
}

-- Requests at times, one after the other: the stamps that are kept and every restart granted.
abbrev pub grant : List ℕ → List ℕ → List ℕ → List ℕ
grant [] stamps granted = granted
grant (now ∷ times) stamps granted = elim (process_restart_allowed now stamps) [
  | true ↦ grant times (note_process_restart now stamps) (granted ++ now ∷ [])
  | false ↦ grant times stamps granted
]

-- The times do not go back, from a time on.
abbrev pub Forward : ℕ → List ℕ → Type 0
Forward from [] = Unit
Forward from (now ∷ times) = (from ≤ now) × Forward now times

-- The restarts of a list in the window of six hours less a second that ends at a time.
unfoldable pub recent : ℕ → List ℕ → List ℕ
recent now granted =
    select (λ restart. leb now (restart + (process_restart_window - 1) * second)) granted

abbrev pub in_window : ℕ → List ℕ → ℕ
in_window now granted = length (recent now granted)

-- Each restart is at most the fifth of the window that it ends.
abbrev pub Rationed : List ℕ → List ℕ → Type 0
Rationed earlier [] = Unit
Rationed earlier (now ∷ later) =
    (in_window now (earlier ++ now ∷ []) ≤ process_restart_limit)
    × Rationed (earlier ++ now ∷ []) later

-- In each window from a time on, at least as many stamps are kept as restarts were granted.
abbrev Faithful : ℕ → List ℕ → List ℕ → Type 0
Faithful from stamps granted =
    (t : ℕ) → from ≤ t → in_window t granted ≤ length (budget_stamps t stamps)
