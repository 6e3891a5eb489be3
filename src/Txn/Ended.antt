-- ===== src/Txn/Ended.antt =====
-- About the end of the block of `setup_transaction` of txn.py.
use anyhop.Prelude.{
  inl, inr, ◌≡◌, ◌⊎◌, refl, some, List, [], ◌∷◌, ◌++◌, Text, nat_eq, list_eq, option_eq,
}
use anyhop.Txn.{
  absent, Disk, clear_journal, restore_credentials, recover, recover_writes, Action, action_writes,
  end_writes, last_of, body_writes, journalled, setup_transaction,
}
use anyhop.Txn.Atomic.{end_writes-committed, end_writes-open}

-- The block is over: no journal is left, and what was staged is in the file only if the state
-- carries the id.
pub record HasEnded {C S : Type 0} (old : C) (id : Text) (disk : Disk C S) : Type 0 where
  closed : disk.journal ≡ absent
  whole : (disk.commit_id ≡ some id) ⊎ (disk.credentials ≡ old)

module _ {C S : Type 0} where
  last_of-append :
      (disk : Disk C S) (xs ys : List (Disk C S))
      → last_of disk (xs ++ ys) ≡ last_of (last_of disk xs) ys
  unfolding last_of
  last_of-append disk [] ys = refl
  last_of-append disk (x ∷ xs) ys = last_of-append x xs ys

  end_writes-HasEnded :
      (id : Text) (old : C) (disk start : Disk C S)
      → HasEnded old id (last_of start (end_writes id old disk))
  unfolding last_of clear_journal restore_credentials
  end_writes-HasEnded id old disk start = elim (option_eq.dec disk.commit_id (some id)) [
    | yes stamp ↦
        rw (end_writes-committed id old disk stamp) (record { closed = refl; whole = inl stamp })
    | no unstamped ↦
        rw (end_writes-open id old disk unstamped) (record { closed = refl; whole = inr refl })
  ]

  body_writes-HasEnded :
      (id : Text) (old : C) (body : List (Action C S)) (disk start : Disk C S)
      → HasEnded old id (last_of start (body_writes id old body disk))
  unfolding body_writes
  body_writes-HasEnded id old [] disk start = end_writes-HasEnded id old disk start
  body_writes-HasEnded id old (action ∷ body) disk start =
      rw
        (last_of-append start (action_writes id action disk)
          (body_writes id old body (last_of disk (action_writes id action disk))))
        (body_writes-HasEnded id old body (last_of disk (action_writes id action disk))
          (last_of start (action_writes id action disk)))

  -- Whatever the block does and however it ends, no journal is left then, and the state carries
  -- the id of the change or the credentials are those from before.
  pub setup_transaction-HasEnded :
      (id : Text) (body : List (Action C S)) (disk : Disk C S)
      → HasEnded (recover disk).1.credentials id (last_of disk (setup_transaction id body disk))
  unfolding setup_transaction last_of
  setup_transaction-HasEnded id body disk =
      let start = journalled id (recover disk).1 in
      rw
        (last_of-append disk (recover_writes disk)
          (start ∷ body_writes id (recover disk).1.credentials body start))
        (body_writes-HasEnded id (recover disk).1.credentials body start start)
