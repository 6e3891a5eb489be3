-- ===== src/Tests/AuthTests.antt =====
-- Tokens and sessions of one server, with signatures, digests and numbers that are as plain as can be.
use native.Mathlib.Decide.{ℕ_discrete}
use anyhop.Prelude.Dict.{assign, lookup, has_key}
use anyhop.Auth.{
  opened, quarantined, Access, loaded, pruned, issued_of, canonical_token, authentic,
  check_login_token, session_signature, lesser, Crypto, corrupt, verify_and_consume, verify_session,
  sign_in, let_in, session_max, refresh_session, make_session,
}
use anyhop.Prelude.Strings.{glue, split_all, split_first, has_char}
use anyhop.Prelude.{
  list_eq, nat_eq, ℕ, ◌+◌, ◌≤◌, ◌≡◌, refl, true, false, some, List, [], ◌∷◌, arith, Text, codes,
}
use anyhop.Prelude.Decimal.{read}
use anyhop.Auth.Once.{Attempt, InOrder, attempts, attempted, verify_and_consume-once}
use anyhop.Auth.Sessions.{Session, signed_in, rolled, verify_session-Session}

abbrev plain : Crypto
plain = record {
  sign = λ secret message. secret;
  b64 = λ payload. payload;
  unb64 = λ payload. some payload;
  digest = λ token. token;
  read_int = read;
}

abbrev secret : Text
secret = codes "key"

abbrev token : Text
token = codes "login:1000:n.key"

abbrev fine : Access
fine = record { readable = true; movable = true; writable = true }

abbrev first : Attempt
first = record { token = token; now = 1010; access = fine }

abbrev last : Attempt
last = record { token = token; now = 1060; access = fine }

abbrev between : List Attempt
between = first ∷ []

verify_and_consume-once_example :
    (verify_and_consume plain secret token 1060 fine
      (attempts plain secret between (attempted plain secret first corrupt))).0
    ≡ false
unfolding verify_and_consume check_login_token authentic has_char nat_eq list_eq canonical_token
    split_first issued_of split_all glue read has_key lookup pruned loaded InOrder opened
    quarantined assign ℕ_discrete
verify_and_consume-once_example =
    verify_and_consume-once plain secret first last between corrupt refl refl (refl, (refl, tt))
      ((ground arith), (ground arith))

abbrev after_login : ℕ × ℕ × Text
after_login = sign_in plain secret 1000 1000

abbrev renewed : ℕ × ℕ × Text
renewed = make_session plain secret 2000 1001

renewed-Session : Session plain secret 1000 1000 2000 renewed
unfolding let_in verify_session sign_in make_session lesser nat_eq list_eq session_signature
    refresh_session
renewed-Session =
    rolled 1000 2000 after_login renewed (signed_in (ground arith)) (ground arith) refl

verify_session-Session_example :
    (verify_session plain secret (some renewed) 3000 1000 ≡ true)
    × (renewed.1 ≤ 1000 + 1 + session_max)
unfolding make_session lesser
verify_session-Session_example =
    verify_session-Session plain secret 1000 1000 2000 3000 renewed renewed-Session
