-- ===== src/Txn/Recovery.antt =====
-- About `_recover_locked` of txn.py: what one recovery leaves for the next.
use anyhop.Prelude.{
  inl, inr, ◌≡◌, ◌⊎◌, refl, ap, ◌∙◌, Bool, Bool-cases, true, false, not, ◌&&◌, ◌==◌, Option, none,
  some, List, [], ◌∷◌, Text, arith, nat_eq, list_eq, option_eq,
}
use anyhop.Prelude.Lists.{All}
use anyhop.Txn.{
  Journal, absent, unreadable, corrupt, entry, Disk, clear_journal, restore_credentials,
  recover_from, recover, recover_writes, last_of, was_committed, state_committed,
}

module _ {C S : Type 0} where
  -- The disk after a recovery from a journal.
  abbrev final : Journal C → Disk C S → Disk C S
  final journal disk = last_of disk (recover_from journal disk).1

  recover_from-commit_id :
      (journal : Journal C) (disk : Disk C S) → (final journal disk).commit_id ≡ disk.commit_id
  unfolding recover_from clear_journal restore_credentials last_of
  recover_from-commit_id absent disk = refl
  recover_from-commit_id unreadable disk = refl
  recover_from-commit_id corrupt disk = refl
  recover_from-commit_id (entry id snapshot) disk = ground (arith, disk)

  pub recover-commit_id : (disk : Disk C S) → (recover disk).1.commit_id ≡ disk.commit_id
  unfolding recover
  recover-commit_id disk = recover_from-commit_id disk.journal disk

  recover_from-journal :
      (journal : Journal C) (disk : Disk C S)
      → disk.journal ≡ journal
      → ((final journal disk).journal ≡ absent) ⊎ ((final journal disk).journal ≡ unreadable)
  unfolding recover_from clear_journal restore_credentials last_of
  recover_from-journal absent disk e = inl e
  recover_from-journal unreadable disk e = inr e
  recover_from-journal corrupt disk e = inl refl
  recover_from-journal (entry id snapshot) disk e = ground (arith, disk)

  recover-settled :
      (disk : Disk C S)
      → (disk.journal ≡ absent) ⊎ (disk.journal ≡ unreadable)
      → recover disk ≡ (false, disk)
  unfolding recover recover_from last_of
  recover-settled disk (inl e) =
      ap (λ j. ((recover_from j disk).0, last_of disk (recover_from j disk).1)) e
  recover-settled disk (inr e) =
      ap (λ j. ((recover_from j disk).0, last_of disk (recover_from j disk).1)) e

  -- A second recovery rolls nothing back and changes nothing.
  pub recover-recover : (disk : Disk C S) → recover (recover disk).1 ≡ (false, (recover disk).1)
  unfolding recover
  recover-recover disk =
      recover-settled (recover disk).1 (recover_from-journal disk.journal disk refl)

  was_committed-same :
      (id : Option Text) (a b : Disk C S)
      → a.commit_id ≡ b.commit_id
      → was_committed id a ≡ was_committed id b
  unfolding was_committed state_committed
  was_committed-same none a b e = refl
  was_committed-same (some id) a b e = ap (λ c. not (id == []) && c == some id) e

  -- The two ways that an entry is recovered.
  kept_lem :
      (id : Option Text) (snapshot : C) (disk : Disk C S)
      → was_committed id disk ≡ true
      → recover_from (entry id snapshot) disk ≡ (false, clear_journal disk ∷ [])
  unfolding recover_from
  kept_lem id snapshot disk e = rw (recover_from, e) refl

  undone_lem :
      (id : Option Text) (snapshot : C) (disk : Disk C S)
      → was_committed id disk ≡ false
      → recover_from (entry id snapshot) disk ≡ (
        true,
        restore_credentials snapshot disk ∷ clear_journal (restore_credentials snapshot disk) ∷ [],
      )
  unfolding recover_from
  undone_lem id snapshot disk e = rw (recover_from, e) refl

  recover-cleared : (disk : Disk C S) → (recover (clear_journal disk)).1 ≡ clear_journal disk
  unfolding recover recover_from last_of clear_journal
  recover-cleared disk = refl

  recover-restored :
      (id : Option Text) (snapshot : C) (disk : Disk C S)
      → disk.journal ≡ entry id snapshot
      → was_committed id disk ≡ false
      → (recover (restore_credentials snapshot disk)).1
        ≡ clear_journal (restore_credentials snapshot disk)
  unfolding recover restore_credentials last_of
  recover-restored id snapshot disk journal e =
      let restored = restore_credentials snapshot disk in
      ap (λ j. last_of restored (recover_from j restored).1) journal
      ∙ ap (λ (w : Bool × List (Disk C S)). last_of restored w.1)
          (undone_lem id snapshot restored (was_committed-same id restored disk refl ∙ e))

  -- A crash in the middle of a recovery: the next one ends where this one would have ended.
  pub recover_writes-resumed :
      (disk : Disk C S) → All (λ d. (recover d).1 ≡ (recover disk).1) (recover_writes disk)
  unfolding recover_writes recover recover_from last_of clear_journal
  recover_writes-resumed disk = from disk.journal refl
    where
      from :
          (journal : Journal C)
          → disk.journal ≡ journal
          → All (λ d. (recover d).1 ≡ final journal disk) (recover_from journal disk).1
      from absent e = tt
      from unreadable e = tt
      from corrupt e = (recover-cleared disk, tt)
      from (entry id snapshot) e = elim (Bool-cases (was_committed id disk)) [
        | inl committed ↦ rw (kept_lem id snapshot disk committed) (recover-cleared disk, tt)
        | inr open_ ↦ rw (undone_lem id snapshot disk open_) (
          recover-restored id snapshot disk e open_,
          (recover-cleared (restore_credentials snapshot disk), tt),
        )
      ]
