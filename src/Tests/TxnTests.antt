-- ===== src/Tests/TxnTests.antt =====
-- The witnesses about setup transactions.
use anyhop.Prelude.{◌≡◌, ℕ, false, some, List, [], ◌∷◌, ◌++◌}
use anyhop.Prelude.Lists.{All}
use anyhop.Txn.{
  Disk, Action, entry, stage, publish, outside, commit, recover, setup_transaction, last_of,
}
use anyhop.Txn.Recovery.{recover-recover}
use anyhop.Txn.Atomic.{Heals, setup_transaction-Heals}
use anyhop.Txn.Ended.{HasEnded, setup_transaction-HasEnded}

-- A change 7 that crashed before its commit left its journal; change 9 starts on that disk.
abbrev crashed : Disk ℕ ℕ
crashed = record {
  credentials = 20;
  state = 5;
  commit_id = some (3 ∷ []);
  journal = entry (some (7 ∷ [])) 10;
}

abbrev staging : List (Action ℕ ℕ)
staging = stage 30 ∷ outside 6 ∷ []

abbrev settled : List (Action ℕ ℕ)
settled = commit ∷ outside 8 ∷ []

setup_transaction-Heals_example :
    All
      (Heals (recover crashed).1.credentials 30 (9 ∷ []))
      (setup_transaction (9 ∷ []) (staging ++ publish 7 ∷ settled) crashed)
setup_transaction-Heals_example =
    setup_transaction-Heals (9 ∷ []) staging settled (publish 7) crashed (λ e. cc) (λ e. cc)
      (tt, (tt, tt)) tt (tt, (tt, tt))

recover-recover_example : recover (recover crashed).1 ≡ (false, (recover crashed).1)
recover-recover_example = recover-recover crashed

setup_transaction-HasEnded_example :
    HasEnded
      (recover crashed).1.credentials
      (9 ∷ [])
      (last_of crashed (setup_transaction (9 ∷ []) staging crashed))
setup_transaction-HasEnded_example = setup_transaction-HasEnded (9 ∷ []) staging crashed
