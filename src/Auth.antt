-- ===== src/Auth.antt =====
-- api/auth.py: one-time login tokens and the store of those that are spent, and session cookies.
pub mod Once
pub mod Sessions
use anyhop.Prelude.{
  ℕ, ◌+◌, ◌-◌, ◌*◌, ◌/◌, Bool, true, false, not, ◌&&◌, ◌||◌, Option, none, some, List, [], ◌∷◌,
  ◌++◌, Text, codes, ◌==◌, ltb, leb, list_eq, nat_eq, if◌then◌else◌,
}
use anyhop.Prelude.Decimal.{show}
use anyhop.Prelude.Dict.{Dict, assign, has_key}
use anyhop.Prelude.Strings.{has_char, split_first, split_all}

-- HMAC, base64, SHA-256 and `int`, which reads a number or raises. A negative number counts as none:
-- its token is long out of date.
pub record Crypto : Type 0 where
  pub sign : Text → Text → Text
  pub b64 : Text → Text
  pub unb64 : Text → Option Text
  pub digest : Text → Text
  pub read_int : Text → Option ℕ

-- `LOGIN_TTL`, `SESSION_IDLE` and `SESSION_MAX` in seconds
abbrev pub login_ttl : ℕ
login_ttl = 120

-- The file of spent tokens: the time when each digest can be forgotten, or what cannot be read. A
-- file that is not there has no digests.
pub data SpentFile : Type 0 where
  corrupt : SpentFile
  spent : Dict Text ℕ → SpentFile

-- `_pruned`
unfoldable pub pruned : Dict Text ℕ → ℕ → Dict Text ℕ
pruned [] now = []
pruned ((digest, expiry) ∷ consumed) now =
    let rest = pruned consumed now in if ltb now expiry then (digest, expiry) ∷ rest else rest

-- How the calls of the system end in one attempt: whether the file can be read, whether it can be
-- moved aside or removed, and whether it can be written.
pub record Access : Type 0 where
  pub readable : Bool
  pub movable : Bool
  pub writable : Bool

-- `_load`, where none is its `ValueError`: a failed read ends in it like a file that is corrupt.
unfoldable pub loaded : Bool → SpentFile → Option (Dict Text ℕ)
loaded false file = none
loaded true corrupt = none
loaded true (spent consumed) = some consumed

-- `_quarantine_corrupt`: the file is not there then, or stays as it is.
unfoldable pub quarantined : Bool → SpentFile → SpentFile
quarantined movable file = if movable then spent [] else file

-- The digests that an attempt compares with, and the file after they are read.
unfoldable pub opened : Access → ℕ → SpentFile → Dict Text ℕ × SpentFile
opened access now file = elim (loaded access.readable file) [
  | none ↦ ([], quarantined access.movable file)
  | some consumed ↦ (pruned consumed now, file)
]

abbrev pub session_idle : ℕ
session_idle = 1800

abbrev pub session_max : ℕ
session_max = 43200

-- `min(a, b)`
unfoldable pub lesser : ℕ → ℕ → ℕ
lesser a b = if leb a b then a else b

module _ (crypto : Crypto) (secret : Text) where
  unfoldable pub canonical_token : Text → Text
  canonical_token payload = crypto.b64 payload ++ (b'.' ∷ crypto.sign secret payload)

  -- The time in the payload of a login token.
  unfoldable pub issued_of : List Text → Option ℕ
  issued_of (kind ∷ issued ∷ nonce ∷ []) =
      if kind == codes "login" then crypto.read_int issued else none
  issued_of parts = none

  -- A token that is authentic and canonical, with its time of issue.
  unfoldable pub authentic : Text → Option ℕ
  authentic token =
      if has_char b'.' token
      then elim (crypto.unb64 (split_first b'.' token).0) [
        | none ↦ none
        | some payload ↦
            if token == canonical_token payload then issued_of (split_all b':' payload) else none
      ]
      else none

  -- `_check_login_token`: the token is its own canonical form then.
  unfoldable pub check_login_token : Text → ℕ → Option (Text × ℕ)
  check_login_token token now = elim (authentic token) [
    | none ↦ none
    | some issued ↦
        if leb now (issued + login_ttl) && leb issued (now + login_ttl)
        then some (token, issued)
        else none
  ]

  unfoldable pub verify_and_consume : Text → ℕ → Access → SpentFile → Bool × SpentFile
  verify_and_consume token now access file = elim (check_login_token token now) [
    | none ↦ (false, file)
    | some (canonical, issued) ↦
        let (consumed, rest) = opened access now file in
        if has_key (crypto.digest canonical) consumed
        then (false, rest)
        else if access.writable
        then (true, spent (assign (crypto.digest canonical) (issued + login_ttl + 1) consumed))
        else (false, rest)
  ]

  unfoldable pub session_signature : ℕ → ℕ → Text
  session_signature issued expiry =
      crypto.sign secret (codes "session:" ++ (show issued ++ (b':' ∷ show expiry)))

  -- `make_session`: the two times of the cookie and its signature.
  unfoldable pub make_session : ℕ → ℕ → ℕ × ℕ × Text
  make_session now issued =
      let expiry = lesser (now + session_idle) (issued + session_max) in
      (issued, expiry, session_signature issued expiry)

  -- `verify_session` of a cookie that `_parse_session` reads, or does not. No time is negative here.
  unfoldable pub verify_session : Option (ℕ × ℕ × Text) → ℕ → ℕ → Bool
  verify_session none now revoked_at = false
  verify_session (some (issued, expiry, signature)) now revoked_at =
      not (ltb expiry now)
      && leb issued expiry
      && leb expiry (issued + session_max)
      && (revoked_at == 0 || ltb revoked_at issued)
      && signature == session_signature issued expiry

  -- `refresh_session`: the cookie that replaces this one, if any.
  unfoldable pub refresh_session : Option (ℕ × ℕ × Text) → ℕ → Option (ℕ × ℕ × Text)
  refresh_session none now = none
  refresh_session (some (issued, expiry, signature)) now =
      if ltb (now + session_idle / 2) expiry || leb (issued + session_max) (now + session_idle / 2)
      then none
      else some (make_session now issued)

  -- The cookie of a login: its time of issue is after the last logout.
  unfoldable pub sign_in : ℕ → ℕ → ℕ × ℕ × Text
  sign_in now revoked_at = make_session now (if ltb revoked_at now then now else revoked_at + 1)

  -- Whether a request with the cookie is let in, and the cookie that its answer sets.
  unfoldable pub let_in : Option (ℕ × ℕ × Text) → ℕ → ℕ → Bool × Option (ℕ × ℕ × Text)
  let_in cookie now revoked_at =
      if verify_session cookie now revoked_at
      then (true, refresh_session cookie now)
      else (false, none)
