-- ===== src/Auth/Sessions.antt =====
-- About the session cookies of api/auth.py, as the server signs them and lets them in.
use mathlib.Core.Path.{subst}
use anyhop.Prelude.{
  ℕ, ◌+◌, ◌<◌, ◌≤◌, ◌≡◌, refl, true, some, arith, Text, ltb, leb, list_eq, nat_eq, if◌then◌else◌,
}
use anyhop.Auth.{
  Crypto, session_max, lesser, session_signature, make_session, verify_session, refresh_session,
  sign_in, let_in,
}

-- The cookies that a login and the requests after it set, each with the time when it is set.
pub data Session (crypto : Crypto) (secret : Text) (revoked_at login : ℕ)
    : ℕ → ℕ × ℕ × Text → Type 0 where
  signed_in :
      revoked_at ≤ login
      → Session crypto secret revoked_at login login (sign_in crypto secret login revoked_at)
  rolled :
      (before now : ℕ) (cookie next : ℕ × ℕ × Text)
      → Session crypto secret revoked_at login before cookie
      → before ≤ now
      → let_in crypto secret (some cookie) now revoked_at ≡ (true, some next)
      → Session crypto secret revoked_at login now next

-- What `verify_session` asks of a cookie but that it is not too old.
abbrev Sound : Crypto → Text → ℕ → ℕ → ℕ → ℕ × ℕ × Text → Type 0
Sound crypto secret revoked_at login now (issued, expiry, signature) =
    (revoked_at < issued)
    × (issued ≤ login + 1)
    × (login ≤ now)
    × (issued ≤ expiry)
    × (expiry ≤ issued + session_max)
    × (signature ≡ session_signature crypto secret issued expiry)

module _ (crypto : Crypto) (secret : Text) (revoked_at login : ℕ) where
  make_session-Sound :
      (now issued : ℕ)
      → revoked_at < issued
      → issued ≤ login + 1
      → login ≤ now
      → Sound crypto secret revoked_at login now (make_session crypto secret now issued)
  unfolding make_session lesser
  make_session-Sound now issued later early le =
      (later, early, le, ground arith, ground arith, refl)

  sign_in-Sound :
      revoked_at ≤ login
      → Sound crypto secret revoked_at login login (sign_in crypto secret login revoked_at)
  unfolding sign_in
  sign_in-Sound le =
      make_session-Sound login (if ltb revoked_at login then login else revoked_at + 1)
        (ground arith) (ground arith) (ground arith)

  let_in-some :
      (now : ℕ) (issued expiry : ℕ) (signature : Text) (next : ℕ × ℕ × Text)
      → let_in crypto secret (some (issued, expiry, signature)) now revoked_at ≡ (true, some next)
      → make_session crypto secret now issued ≡ next
  unfolding let_in refresh_session
  let_in-some now issued expiry signature next e = ground (arith, e)

  Session-Sound :
      (now : ℕ) (cookie : ℕ × ℕ × Text)
      → Session crypto secret revoked_at login now cookie
      → Sound crypto secret revoked_at login now cookie
  Session-Sound now cookie (signed_in le) = sign_in-Sound le
  Session-Sound now cookie (rolled before _ (issued, expiry, signature) next session le e) =
      let (later, early, at_login, _, _, _) =
        Session-Sound before (issued, expiry, signature) session in
      subst (Sound crypto secret revoked_at login now)
        (let_in-some now issued expiry signature next e)
        (make_session-Sound now issued later early (ground arith))

  verify_session-Sound :
      (cookie : ℕ × ℕ × Text) (now moment : ℕ)
      → Sound crypto secret revoked_at login now cookie
      → verify_session crypto secret (some cookie) moment revoked_at ≡ leb moment (cookie.1)
  unfolding verify_session
  verify_session-Sound (issued, expiry, signature) now moment
        (later, early, le, order, short, genuine) =
      ground (arith, later, order, short, genuine)

  -- A cookie that a login set, or any row of renewals after it, is accepted exactly until its
  -- time of expiry while the time of the last logout is the one that the login saw, which was
  -- not after the login; and no renewal moves the expiry past the cap counted from the login, by
  -- more than one second.
  pub verify_session-Session :
      (now moment : ℕ) (cookie : ℕ × ℕ × Text)
      → Session crypto secret revoked_at login now cookie
      → (verify_session crypto secret (some cookie) moment revoked_at ≡ leb moment (cookie.1))
        × (cookie.1 ≤ login + 1 + session_max)
  verify_session-Session now moment cookie session =
      let sound = Session-Sound now cookie session in
      (verify_session-Sound cookie now moment sound, ground (arith, sound))
