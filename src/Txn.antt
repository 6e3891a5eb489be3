-- ===== src/Txn.antt =====
-- txn.py: compound changes of the credentials and the state, with a journal that undoes them.
-- The contents of the two files are any types. A disk is what the three files hold; each write of
-- one replaces it whole, so a crash leaves one of the disks that a change passes through.
pub mod Recovery
pub mod Atomic
pub mod Ended
use anyhop.Prelude.{
  Bool, true, false, ◌&&◌, not, Option, none, some, List, [], ◌∷◌, ◌++◌, Text, ◌==◌, nat_eq,
  list_eq, option_eq, if◌then◌else◌,
}

-- `setup-journal.json`: not there, not readable, without a usable copy of the credentials, or an
-- entry with its id, where it has one, and the copy.
pub data Journal (C : Type 0) : Type 0 where
  absent unreadable corrupt : Journal C
  entry : Option Text → C → Journal C

pub record Disk (C S : Type 0) : Type 0 where
  pub credentials : C
  pub state : S
  pub commit_id : Option Text
  pub journal : Journal C

-- What a body does: it writes credentials, it ends a state transaction, it commits; or another
-- process ends a state transaction, which keeps the id of the last setup.
pub data Action (C S : Type 0) : Type 0 where
  stage : C → Action C S
  publish : S → Action C S
  outside : S → Action C S
  commit : Action C S

module _ {C S : Type 0} where
  unfoldable pub state_committed : Text → Disk C S → Bool
  state_committed id disk = disk.commit_id == some id

  unfoldable pub clear_journal : Disk C S → Disk C S
  clear_journal disk = record disk { journal = absent }

  unfoldable pub restore_credentials : C → Disk C S → Disk C S
  restore_credentials snapshot disk = record disk { credentials = snapshot }

  -- `transaction_id and _state_committed(transaction_id)`
  unfoldable pub was_committed : Option Text → Disk C S → Bool
  was_committed none disk = false
  was_committed (some id) disk = not (id == []) && state_committed id disk

  unfoldable pub last_of : Disk C S → List (Disk C S) → Disk C S
  last_of disk [] = disk
  last_of disk (next ∷ disks) = last_of next disks

  -- Whether credentials were rolled back, and the disks after each write.
  unfoldable pub recover_from : Journal C → Disk C S → Bool × List (Disk C S)
  recover_from absent disk = (false, [])
  recover_from unreadable disk = (false, [])
  recover_from corrupt disk = (false, clear_journal disk ∷ [])
  recover_from (entry id snapshot) disk =
      if was_committed id disk then (false, clear_journal disk ∷ []) else (
        true,
        restore_credentials snapshot disk ∷ clear_journal (restore_credentials snapshot disk) ∷ [],
      )

  unfoldable pub recover_writes : Disk C S → List (Disk C S)
  recover_writes disk = (recover_from disk.journal disk).1

  -- `_recover_locked`: whether credentials were rolled back, and the disk after it.
  unfoldable pub recover : Disk C S → Bool × Disk C S
  recover disk =
      ((recover_from disk.journal disk).0, last_of disk (recover_from disk.journal disk).1)

  unfoldable pub stamped : Text → S → Disk C S → Disk C S
  stamped id state disk = record disk { state = state; commit_id = some id }

  -- `SetupTxn.commit`: the disks after its writes.
  unfoldable pub commit_writes : Text → Disk C S → List (Disk C S)
  commit_writes id disk =
      if state_committed id disk
      then clear_journal disk ∷ []
      else stamped id disk.state disk ∷ clear_journal (stamped id disk.state disk) ∷ []

  unfoldable pub action_writes : Text → Action C S → Disk C S → List (Disk C S)
  action_writes id (stage credentials) disk = record disk { credentials = credentials } ∷ []
  action_writes id (publish state) disk = stamped id state disk ∷ []
  action_writes id (outside state) disk = record disk { state = state } ∷ []
  action_writes id commit disk = commit_writes id disk

  -- The end of the `with` block, by a return or by an exception: `txn.committed` implies that the
  -- state carries the id, so one test is left.
  unfoldable pub end_writes : Text → C → Disk C S → List (Disk C S)
  end_writes id snapshot disk =
      if state_committed id disk
      then clear_journal disk ∷ []
      else restore_credentials snapshot disk
        ∷ clear_journal (restore_credentials snapshot disk)
        ∷ []

  unfoldable pub body_writes : Text → C → List (Action C S) → Disk C S → List (Disk C S)
  unfolding last_of
  body_writes id snapshot [] disk = end_writes id snapshot disk
  body_writes id snapshot (action ∷ body) disk =
      action_writes id action disk
      ++ body_writes id snapshot body (last_of disk (action_writes id action disk))

  unfoldable pub journalled : Text → Disk C S → Disk C S
  journalled id disk = record disk { journal = entry (some id) disk.credentials }

  -- `setup_transaction`: every disk from its start to its end, if no crash cuts it short.
  unfoldable pub setup_transaction : Text → List (Action C S) → Disk C S → List (Disk C S)
  setup_transaction id body disk =
      let healed = (recover disk).1 in
      disk
      ∷ (recover_writes disk
          ++ (journalled id healed ∷ body_writes id healed.credentials body (journalled id healed)))
