-- ===== src/Auth/Once.antt =====
-- About `verify_and_consume` of api/auth.py: a login token is accepted once.
use mathlib.Core.Path.{subst}
use anyhop.Prelude.{
  ◌++◌, ℕ, ◌+◌, ◌<◌, ◌≤◌, inl, inr, Option-cases, Bool-cases, ◌≡◌, ◌⊎◌, refl, ap, true, false, none,
  some, List, [], ◌∷◌, arith, Text, ltb, list_eq, nat_eq,
}
use anyhop.Prelude.Lists.{All, All-split}
use anyhop.Prelude.Dict.{Dict, lookup, assign, has_key, lookup-assign}
use anyhop.Auth.{
  Crypto, SpentFile, corrupt, spent, login_ttl, pruned, loaded, opened, Access, authentic,
  check_login_token, verify_and_consume,
}

-- The digests that the file has.
abbrev pub recorded : SpentFile → Dict Text ℕ
recorded corrupt = []
recorded (spent consumed) = consumed

-- The digest is in the file until the time, or the time is over.
abbrev pub IsSpent : Text → ℕ → ℕ → SpentFile → Type 0
IsSpent digest expiry now file = (lookup digest (recorded file) ≡ some expiry) ⊎ (expiry ≤ now)

-- An attempt: a token, the time, and how the calls of the system end.
pub record Attempt : Type 0 where
  pub token : Text
  pub now : ℕ
  pub access : Access

-- The file could be read.
abbrev pub IsRead : Attempt → Type 0
IsRead attempt = attempt.access.readable ≡ true

lookup-pruned :
    (digest : Text) (expiry now : ℕ) (consumed : Dict Text ℕ)
    → lookup digest consumed ≡ some expiry
    → now < expiry
    → lookup digest (pruned consumed now) ≡ some expiry
unfolding lookup pruned
lookup-pruned digest expiry now [] found later = cc
lookup-pruned digest expiry now ((d, e) ∷ consumed) found later =
    ground (arith, found, later, lookup-pruned digest expiry now consumed)

has_key-found : (k : Text) (v : ℕ) (d : Dict Text ℕ) → lookup k d ≡ some v → has_key k d ≡ true
unfolding has_key
has_key-found k v d found = rw (has_key, found) refl

lookup-added :
    (k j : Text) (v w : ℕ) (d : Dict Text ℕ)
    → has_key j d ≡ false
    → lookup k d ≡ some v
    → lookup k (assign j w d) ≡ some v
lookup-added k j v w d new found =
    ground (arith, lookup-assign k j w d, new, found, has_key-found k v d found)

lookup-assigned : (k j : Text) (v : ℕ) (d : Dict Text ℕ) → k ≡ j → lookup k (assign j v d) ≡ some v
lookup-assigned k j v d same = ground (arith, lookup-assign k j v d, same)

-- The times of the attempts do not go back.
unfoldable pub InOrder : ℕ → List Attempt → ℕ → Type 0
InOrder before [] after = before ≤ after
InOrder before (attempt ∷ between) after =
    (before ≤ attempt.now) × InOrder (attempt.now) between after

-- A read that succeeds finds the digest.
opened-found :
    (digest : Text) (expiry now : ℕ) (access : Access) (file : SpentFile)
    → access.readable ≡ true
    → lookup digest (recorded file) ≡ some expiry
    → now < expiry
    → (lookup digest (opened access now file).0 ≡ some expiry)
      × (lookup digest (recorded (opened access now file).1) ≡ some expiry)
unfolding opened loaded lookup
opened-found digest expiry now access corrupt read found later = cc
opened-found digest expiry now access (spent consumed) read found later =
    rw (opened, read) (lookup-pruned digest expiry now consumed found later, found)

module _ (crypto : Crypto) (secret : Text) (token : Text) (now : ℕ) (access : Access)
    (file : SpentFile) where
  refused_lem :
      check_login_token crypto secret token now ≡ none
      → verify_and_consume crypto secret token now access file ≡ (false, file)
  unfolding verify_and_consume
  refused_lem e = rw (verify_and_consume, e) refl

  module _ (canonical : Text) (issued : ℕ)
      (checked : check_login_token crypto secret token now ≡ some (canonical, issued)) where
    repeated_lem :
        has_key (crypto.digest canonical) (opened access now file).0 ≡ true
        → verify_and_consume crypto secret token now access file
          ≡ (false, (opened access now file).1)
    unfolding verify_and_consume
    repeated_lem e = rw (verify_and_consume, checked, e) refl

    unwritten_lem :
        has_key (crypto.digest canonical) (opened access now file).0 ≡ false
        → access.writable ≡ false
        → verify_and_consume crypto secret token now access file
          ≡ (false, (opened access now file).1)
    unfolding verify_and_consume
    unwritten_lem e w = rw (verify_and_consume, checked, e, w) refl

    accepted_lem :
        has_key (crypto.digest canonical) (opened access now file).0 ≡ false
        → access.writable ≡ true
        → verify_and_consume crypto secret token now access file ≡ (
          true,
          spent (
              assign (crypto.digest canonical) (issued + login_ttl + 1) (opened access now file).0),
        )
    unfolding verify_and_consume
    accepted_lem e w = rw (verify_and_consume, checked, e, w) refl

module _ (crypto : Crypto) (secret : Text) where
  -- One more attempt.
  unfoldable pub attempted : Attempt → SpentFile → SpentFile
  attempted attempt file =
      (verify_and_consume crypto secret (attempt.token) (attempt.now) (attempt.access) file).1

  unfoldable pub attempts : List Attempt → SpentFile → SpentFile
  attempts [] file = file
  attempts (attempt ∷ later) file = attempts later (attempted attempt file)

  check_login_token-some :
      (token canonical : Text) (now issued : ℕ)
      → check_login_token crypto secret token now ≡ some (canonical, issued)
      → (token ≡ canonical)
        × (authentic crypto secret token ≡ some issued)
        × (now ≤ issued + login_ttl)
  unfolding check_login_token
  check_login_token-some token canonical now issued e =
      elim (Option-cases (authentic crypto secret token)) [
        | inl absent ↦ ground (arith, absent, e)
        | inr (i, found) ↦ ground (arith, found, e)
      ]

  lookup-consumed :
      (digest token : Text) (expiry now : ℕ) (access : Access) (file : SpentFile)
      → access.readable ≡ true
      → lookup digest (recorded file) ≡ some expiry
      → now < expiry
      → lookup digest (recorded (verify_and_consume crypto secret token now access file).1)
        ≡ some expiry
  lookup-consumed digest token expiry now access file read found later =
      let (old, kept) = opened-found digest expiry now access file read found later in
      elim (Option-cases (check_login_token crypto secret token now)) [
        | inl e ↦ rw (refused_lem crypto secret token now access file e) found
        | inr ((canonical, issued), e) ↦
            elim (Bool-cases (has_key (crypto.digest canonical) (opened access now file).0)) [
              | inl known ↦
                  rw (repeated_lem crypto secret token now access file canonical issued e known)
                    kept
              | inr new ↦ elim (Bool-cases access.writable) [
                | inl w ↦
                    rw (accepted_lem crypto secret token now access file canonical issued e new w) (
                      lookup-added digest (crypto.digest canonical) expiry (issued + login_ttl + 1)
                        (opened access now file).0 new old)
                | inr w ↦
                    rw (unwritten_lem crypto secret token now access file canonical issued e new w)
                      kept
              ]
            ]
      ]

  verify_and_consume-IsSpent :
      (digest : Text) (expiry before : ℕ) (attempt : Attempt) (file : SpentFile)
      → IsRead attempt
      → before ≤ attempt.now
      → IsSpent digest expiry before file
      → IsSpent digest expiry (attempt.now) (attempted attempt file)
  unfolding attempted
  verify_and_consume-IsSpent digest expiry before attempt file read le (inr over) =
      inr (ground arith)
  verify_and_consume-IsSpent digest expiry before attempt file read le (inl found) =
      elim (Bool-cases (ltb (attempt.now) expiry)) [
        | inl later ↦ inl (
            lookup-consumed digest (attempt.token) expiry (attempt.now) (attempt.access) file read
              found (ground (arith, later)))
        | inr over ↦ inr (ground (arith, over))
      ]

  attempts-IsSpent :
      (digest : Text) (expiry before after : ℕ) (between : List Attempt) (file : SpentFile)
      → All IsRead between
      → InOrder before between after
      → IsSpent digest expiry before file
      → IsSpent digest expiry after (attempts between file)
  unfolding attempts InOrder
  attempts-IsSpent digest expiry before after [] file read le (inl found) = inl found
  attempts-IsSpent digest expiry before after [] file read le (inr over) = inr (ground arith)
  attempts-IsSpent digest expiry before after (attempt ∷ between) file (now, read) (le, order) is =
      attempts-IsSpent digest expiry (attempt.now) after between (attempted attempt file) read order
        (verify_and_consume-IsSpent digest expiry before attempt file now le is)

  -- An accepted token is authentic, and its digest is in the file then.
  accepted-spent :
      (attempt : Attempt) (file : SpentFile)
      → (verify_and_consume crypto secret (attempt.token) (attempt.now) (attempt.access) file).0
        ≡ true
      → (issued : ℕ) × (authentic crypto secret (attempt.token) ≡ some issued)
        × (lookup (crypto.digest (attempt.token)) (recorded (attempted attempt file))
            ≡ some (issued + login_ttl + 1))
  unfolding attempted
  accepted-spent attempt file accepted =
      let token = attempt.token in
      let now = attempt.now in
      let access = attempt.access in
      elim (Option-cases (check_login_token crypto secret token now)) [
        | inl e ↦ ground (arith, refused_lem crypto secret token now access file e, accepted)
        | inr ((canonical, issued), e) ↦
            elim (Bool-cases (has_key (crypto.digest canonical) (opened access now file).0)) [
              | inl old ↦ ground (
                arith,
                repeated_lem crypto secret token now access file canonical issued e old,
                accepted,
              )
              | inr new ↦ elim (Bool-cases access.writable) [
                | inl w ↦
                    let (same, genuine, _) = check_login_token-some token canonical now issued e in
                    (
                      issued,
                      genuine,
                      rw
                          (
                            attempted,
                            accepted_lem crypto secret token now access file canonical issued e new
                                w,
                          )
                          (lookup-assigned (crypto.digest token) (crypto.digest canonical)
                            (issued + login_ttl + 1) (opened access now file).0
                            (ap (λ t. crypto.digest t) same)),
                    )
                | inr w ↦ ground (
                  arith,
                  unwritten_lem crypto secret token now access file canonical issued e new w,
                  accepted,
                )
              ]
            ]
      ]

  refused-spent :
      (token : Text) (issued now : ℕ) (access : Access) (file : SpentFile)
      → access.readable ≡ true
      → authentic crypto secret token ≡ some issued
      → IsSpent (crypto.digest token) (issued + login_ttl + 1) now file
      → (verify_and_consume crypto secret token now access file).0 ≡ false
  refused-spent token issued now access file read genuine is =
      elim (Option-cases (check_login_token crypto secret token now)) [
        | inl e ↦ rw (refused_lem crypto secret token now access file e) refl
        | inr ((canonical, i), e) ↦
            let checked = check_login_token-some token canonical now i e in
            elim is [
              | inl found ↦
                  let here : lookup (crypto.digest canonical) (recorded file)
                      ≡ some (issued + login_ttl + 1) =
                    subst
                      (λ t.
                        lookup (crypto.digest t) (recorded file) ≡ some (issued + login_ttl + 1))
                      checked.0 found in
                  let old =
                    opened-found (crypto.digest canonical) (issued + login_ttl + 1) now access file
                      read here (ground (arith, checked.1, checked.2, genuine)) in
                  rw
                    (repeated_lem crypto secret token now access file canonical i e (
                      has_key-found (crypto.digest canonical) (issued + login_ttl + 1)
                        (opened access now file).0 old.0))
                    refl
              | inr over ↦ ground (arith, over, checked, genuine)
            ]
      ]

  -- A login token that was accepted is refused at every later time, whatever attempts with it or
  -- other tokens came between, if the clock did not go back, nothing else changed the file, and
  -- the file could be read in each attempt after the first.
  pub verify_and_consume-once :
      (first last : Attempt) (between : List Attempt) (file : SpentFile)
      → (verify_and_consume crypto secret (first.token) (first.now) (first.access) file).0 ≡ true
      → last.token ≡ first.token
      → All IsRead (between ++ last ∷ [])
      → InOrder (first.now) between (last.now)
      → (verify_and_consume crypto secret
          (last.token)
          (last.now)
          (last.access)
          (attempts between (attempted first file))).0
        ≡ false
  verify_and_consume-once first last between file accepted same read order =
      let (issued, genuine, kept) = accepted-spent first file accepted in
      let (before, now) = All-split IsRead between last read in
      refused-spent (last.token) issued (last.now) (last.access)
        (attempts between (attempted first file)) now (rw same genuine)
        (rw same (
          attempts-IsSpent (crypto.digest (first.token)) (issued + login_ttl + 1) (first.now)
            (last.now) between (attempted first file) before order (inl kept)))
