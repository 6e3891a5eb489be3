-- ===== src/Txn/Atomic.antt =====
-- About `setup_transaction` and `_recover_locked` of txn.py: what a crash leaves.
use anyhop.Prelude.{
  inl, inr, ◌≡◌, ◌≢◌, ◌⊎◌, refl, ap, some, List, [], ◌∷◌, ◌++◌, arith, Text, nat_eq, list_eq,
  option_eq,
}
use anyhop.Prelude.Lists.{All, All-append, All-map}
use anyhop.Txn.{
  absent, entry, Disk, state_committed, clear_journal, restore_credentials, was_committed,
  recover_from, recover, recover_writes, Action, stage, publish, outside, commit, stamped,
  commit_writes, action_writes, end_writes, last_of, body_writes, journalled, setup_transaction,
}
use anyhop.Txn.Recovery.{recover-commit_id, recover_writes-resumed}

-- What a body may do before its commit point, at it, and after it.
abbrev pub IsStaging : {C S : Type 0} → Action C S → Type 0
IsStaging (stage c) = Unit
IsStaging (outside s) = Unit
IsStaging (publish s) = ⊥
IsStaging commit = ⊥

abbrev pub IsPoint : {C S : Type 0} → Action C S → Type 0
IsPoint (stage c) = ⊥
IsPoint (outside s) = ⊥
IsPoint (publish s) = Unit
IsPoint commit = Unit

abbrev pub IsSettled : {C S : Type 0} → Action C S → Type 0
IsSettled (stage c) = ⊥
IsSettled (outside s) = Unit
IsSettled (publish s) = Unit
IsSettled commit = Unit

-- The credentials that are staged in the end.
abbrev pub staged : {C S : Type 0} → C → List (Action C S) → C
staged c [] = c
staged c (stage new ∷ body) = staged new body
staged c (outside s ∷ body) = staged c body
staged c (publish s ∷ body) = staged c body
staged c (commit ∷ body) = staged c body

-- The recovery of a disk gives the credentials from before the change, and the state does not carry
-- its id; or the new ones, and the state carries it.
abbrev pub Heals : {C S : Type 0} → C → C → Text → Disk C S → Type 0
Heals old new id disk =
    (((recover disk).1.credentials ≡ old) × ((recover disk).1.commit_id ≢ some id))
    ⊎ (((recover disk).1.credentials ≡ new) × ((recover disk).1.commit_id ≡ some id))

module _ {C S : Type 0} (id : Text) (old : C) where
  record IsOpen (disk : Disk C S) : Type 0 where
    undo : disk.journal ≡ entry (some id) old
    unstamped : disk.commit_id ≢ some id

  -- The journal is the one of this change, or it is gone.
  record IsDone (new : C) (disk : Disk C S) : Type 0 where
    journal : (disk.journal ≡ entry (some id) old) ⊎ (disk.journal ≡ absent)
    kept : disk.credentials ≡ new
    stamp : disk.commit_id ≡ some id

  IsOpen-Heals : (new : C) (disk : Disk C S) → IsOpen disk → Heals old new id disk
  unfolding recover recover_from was_committed state_committed clear_journal restore_credentials
      last_of
  IsOpen-Heals new disk o = ground (arith, o.undo, o.unstamped)

  IsDone-Heals : (new : C) (disk : Disk C S) → id ≢ [] → IsDone new disk → Heals old new id disk
  unfolding recover recover_from was_committed state_committed clear_journal last_of
  IsDone-Heals new disk ne d = ground (arith, ne, d.journal, d.kept, d.stamp)

  pub end_writes-committed :
      (disk : Disk C S)
      → disk.commit_id ≡ some id
      → end_writes id old disk ≡ clear_journal disk ∷ []
  unfolding end_writes state_committed
  end_writes-committed disk stamp = ground (arith, stamp)

  pub end_writes-open :
      (disk : Disk C S)
      → disk.commit_id ≢ some id
      → end_writes id old disk
        ≡ restore_credentials old disk ∷ clear_journal (restore_credentials old disk) ∷ []
  unfolding end_writes state_committed
  end_writes-open disk unstamped = ground (arith, unstamped)

  commit_writes-committed :
      (disk : Disk C S) → disk.commit_id ≡ some id → commit_writes id disk ≡ clear_journal disk ∷ []
  unfolding commit_writes state_committed
  commit_writes-committed disk stamp = ground (arith, stamp)

  commit_writes-open :
      (disk : Disk C S)
      → disk.commit_id ≢ some id
      → commit_writes id disk
        ≡ stamped id disk.state disk ∷ clear_journal (stamped id disk.state disk) ∷ []
  unfolding commit_writes state_committed
  commit_writes-open disk unstamped = ground (arith, unstamped)

  cleared-IsDone : (new : C) (disk : Disk C S) → IsDone new disk → IsDone new (clear_journal disk)
  unfolding clear_journal
  cleared-IsDone new disk d = record { journal = inr refl; kept = d.kept; stamp = d.stamp }

  stamped-IsDone :
      (s : S) (disk : Disk C S)
      → disk.journal ≡ entry (some id) old
      → IsDone disk.credentials (stamped id s disk)
  unfolding stamped
  stamped-IsDone s disk undo = record { journal = inl undo; kept = refl; stamp = refl }

  -- After the commit point.
  settled-Heals :
      (new : C) (tail : List (Action C S)) (disk : Disk C S)
      → id ≢ []
      → All IsSettled tail
      → IsDone new disk
      → All (Heals old new id) (body_writes id old tail disk)
  unfolding body_writes action_writes last_of stamped
  settled-Heals new [] disk ne settled d =
      rw (end_writes-committed disk d.stamp)
        (IsDone-Heals new (clear_journal disk) ne (cleared-IsDone new disk d), tt)
  settled-Heals new (stage c ∷ tail) disk ne settled d = elim settled.0 [ ]
  settled-Heals new (outside s ∷ tail) disk ne (_, settled) d =
      let next : IsDone new (record disk { state = s }) = record {
        journal = d.journal;
        kept = d.kept;
        stamp = d.stamp;
      } in
      (
        IsDone-Heals new (record disk { state = s }) ne next,
        settled-Heals new tail (record disk { state = s }) ne settled next,
      )
  settled-Heals new (publish s ∷ tail) disk ne (_, settled) d =
      let next : IsDone new (stamped id s disk) = record {
        journal = d.journal;
        kept = d.kept;
        stamp = refl;
      } in
      (
        IsDone-Heals new (stamped id s disk) ne next,
        settled-Heals new tail (stamped id s disk) ne settled next,
      )
  settled-Heals new (commit ∷ tail) disk ne (_, settled) d =
      rw (commit_writes-committed disk d.stamp) (
        IsDone-Heals new (clear_journal disk) ne (cleared-IsDone new disk d),
        settled-Heals new tail (clear_journal disk) ne settled (cleared-IsDone new disk d),
      )

  -- At it.
  point-Heals :
      (point : Action C S) (tail : List (Action C S)) (disk : Disk C S)
      → id ≢ []
      → IsPoint point
      → All IsSettled tail
      → IsOpen disk
      → All (Heals old disk.credentials id) (body_writes id old (point ∷ tail) disk)
  unfolding body_writes action_writes last_of
  point-Heals (stage c) tail disk ne at settled o = elim at [ ]
  point-Heals (outside s) tail disk ne at settled o = elim at [ ]
  point-Heals (publish s) tail disk ne at settled o = (
    IsDone-Heals disk.credentials (stamped id s disk) ne (stamped-IsDone s disk o.undo),
    settled-Heals disk.credentials tail (stamped id s disk) ne settled
        (stamped-IsDone s disk o.undo),
  )
  point-Heals commit tail disk ne at settled o =
      let next = stamped id disk.state disk in
      let done = stamped-IsDone disk.state disk o.undo in
      let clear = cleared-IsDone disk.credentials next done in
      rw (commit_writes-open disk o.unstamped) (
        IsDone-Heals disk.credentials next ne done,
        (
          IsDone-Heals disk.credentials (clear_journal next) ne clear,
          settled-Heals disk.credentials tail (clear_journal next) ne settled clear,
        ),
      )

  -- Before it.
  staging-Heals :
      (before : List (Action C S)) (point : Action C S) (tail : List (Action C S)) (disk : Disk C S)
      → id ≢ []
      → All IsStaging before
      → IsPoint point
      → All IsSettled tail
      → IsOpen disk
      → All
          (Heals old (staged disk.credentials before) id)
          (body_writes id old (before ++ point ∷ tail) disk)
  unfolding body_writes action_writes last_of
  staging-Heals [] point tail disk ne staging at settled o =
      point-Heals point tail disk ne at settled o
  staging-Heals (stage c ∷ before) point tail disk ne (_, staging) at settled o =
      let next : IsOpen (record disk { credentials = c }) = record {
        undo = o.undo;
        unstamped = o.unstamped;
      } in
      (
        IsOpen-Heals (staged c before) (record disk { credentials = c }) next,
        staging-Heals before point tail (record disk { credentials = c }) ne staging at settled
            next,
      )
  staging-Heals (outside s ∷ before) point tail disk ne (_, staging) at settled o =
      let next : IsOpen (record disk { state = s }) = record {
        undo = o.undo;
        unstamped = o.unstamped;
      } in
      (
        IsOpen-Heals (staged disk.credentials before) (record disk { state = s }) next,
        staging-Heals before point tail (record disk { state = s }) ne staging at settled next,
      )
  staging-Heals (publish s ∷ before) point tail disk ne staging at settled o = elim staging.0 [ ]
  staging-Heals (commit ∷ before) point tail disk ne staging at settled o = elim staging.0 [ ]

module _ {C S : Type 0} where
  -- If a change stages credentials, then commits and stages no more, and its id is not empty and
  -- not the one that the state carries, then whichever write a crash follows, those of the
  -- recovery at its start included, the recovery gives the credentials from before while the
  -- state does not carry the id, or the staged ones while it carries it.
  pub setup_transaction-Heals :
      (id : Text) (before tail : List (Action C S)) (point : Action C S) (disk : Disk C S)
      → id ≢ []
      → disk.commit_id ≢ some id
      → All IsStaging before
      → IsPoint point
      → All IsSettled tail
      → All
          (Heals (recover disk).1.credentials (staged (recover disk).1.credentials before) id)
          (setup_transaction id (before ++ point ∷ tail) disk)
  unfolding setup_transaction journalled
  setup_transaction-Heals id before tail point disk ne fresh staging at settled =
      let unstamped : (recover disk).1.commit_id ≢ some id = rw (recover-commit_id disk) fresh in
      let healed = (recover disk).1 in
      let open_ : IsOpen id healed.credentials (journalled id healed) = record {
        undo = refl;
        unstamped = unstamped;
      } in
      (
        inl (refl, unstamped),
        All-append (Heals healed.credentials (staged healed.credentials before) id)
            (recover_writes disk) _
            (All-map (recover_writes disk)
              (λ d same. inl (ap (λ (x : Disk C S). x.credentials) same, rw same unstamped))
              (recover_writes-resumed disk))
            (
              IsOpen-Heals id healed.credentials (staged healed.credentials before)
                  (journalled id healed) open_,
              staging-Heals id healed.credentials before point tail (journalled id healed) ne
                  staging at settled open_,
            ),
      )
