-- ===== src/Wgconf/Canonical/Checked.antt =====
-- About the checks of `parse` of wgconf.py on the fields of a canonical configuration.
use anyhop.Prelude.{
  ℕ, ◌+◌, ◌<◌, ◌≤◌, ◌≡◌, ◌≢◌, refl, ap, ◌∙◌, Bool, true, false, Option, none, some, List, [], ◌∷◌,
  ◌++◌, arith, Text, codes, ◌==◌, list_eq, nat_eq,
}
use anyhop.Prelude.Decimal.{show, read, read-show}
use anyhop.Prelude.Dict.{lookup}
use anyhop.Prelude.Lists.{All, find}
use anyhop.Prelude.Strings.{has_char, join}
use anyhop.Prelude.Strings.Clean.{IsClean, show-free, split_last-append}
use anyhop.Prelude.Strings.Joined.{IsEntry, parts-join, join-IsClean}
use anyhop.Result.{ok}
use anyhop.Wgconf.{Problem, Python, Entries, csv}
use anyhop.Wgconf.Fields.{
  concat, given, missing, missing_problem, problem_if, entries_of, value_of, refused, all_refused,
  keepalive_of, Parsed, or_default, problems_of, result_or, text_of, valid_host, key_problems,
  endpoint_parts, check_endpoint, split_endpoint, endpoint_of, Fields, problem_lists,
  field_problems, parsed_of,
}
use anyhop.Wgconf.Fields.Valid.{IsValid}

-- Texts that a line of a file can hold: nothing to strip, and no comma in an entry of a list.
pub record IsWritable (parsed : Parsed) : Type 0 where
  pub private_key : IsClean parsed.private_key
  pub public_key : IsClean parsed.public_key
  pub preshared_key : (key : Text) → parsed.preshared_key ≡ some key → IsClean key
  pub address : (parsed.address ≢ []) × All IsEntry parsed.address
  pub allowed_ips : (parsed.allowed_ips ≢ []) × All IsEntry parsed.allowed_ips
  pub host : IsClean parsed.endpoint_host
  pub no_bracket : (c : ℕ) (rest : Text) → parsed.endpoint_host ≡ c ∷ rest → (c == b'[') ≡ false

csv-join :
    (entries : List Text)
    → entries ≢ []
    → All IsEntry entries
    → csv (join (codes ", ") entries) ≡ entries
unfolding csv
csv-join [] ne all = absurd (ne refl)
csv-join (entry ∷ entries) ne all = parts-join entry entries all

pub clean-join :
    (entries : List Text) → entries ≢ [] → All IsEntry entries → IsClean (join (codes ", ") entries)
clean-join [] ne all = absurd (ne refl)
clean-join (entry ∷ entries) ne all = join-IsClean entry entries all

refused-All :
    (test : Text → Bool) (problem : Text → Problem) (entries : List Text)
    → All (λ entry. test entry ≡ true) entries
    → refused test problem entries ≡ []
unfolding refused find
refused-All test problem [] all = refl
refused-All test problem (entry ∷ entries) (good, all) =
    ground (arith, good, refused-All test problem entries all)

concat-All : {A : Type 0} (xss : List (List A)) → All (λ xs. xs ≡ []) xss → concat xss ≡ []
unfolding concat
concat-All [] all = refl
concat-All (xs ∷ xss) (here, all) = rw (here) (concat-All xss all)

pub given-some :
    (key value : Text) (lineno : ℕ) (keys : Entries)
    → lookup key keys ≡ some (value, lineno)
    → value ≢ []
    → given key keys ≡ some (value, lineno)
unfolding given
given-some key [] lineno keys found ne = absurd (ne refl)
given-some key (c ∷ value) lineno keys found ne = rw (given, found) refl

endpoint_parts-join :
    (host port : Text)
    → host ≢ []
    → ((c : ℕ) (rest : Text) → host ≡ c ∷ rest → (c == b'[') ≡ false)
    → has_char b':' port ≡ false
    → endpoint_parts (host ++ (b':' ∷ port)) ≡ (host, port)
unfolding endpoint_parts
endpoint_parts-join [] port ne bracket free = absurd (ne refl)
endpoint_parts-join (c ∷ host) port ne bracket free =
    rw (endpoint_parts, bracket c host refl) (split_last-append b':' (c ∷ host) port free)

checked :
    (python : Python) (host digits endpoint : Text) (port lineno : ℕ)
    → host ≢ []
    → read digits ≡ some port
    → valid_host python host ≡ true
    → 0 < port
    → port ≤ 65535
    → check_endpoint python endpoint lineno (host, digits) ≡ ok (host, port)
unfolding check_endpoint
checked python host digits endpoint port lineno ne number valid low high =
    rw (check_endpoint, number) (ground (arith, ne, valid, low, high))

split_endpoint-join :
    (python : Python) (host : Text) (port lineno : ℕ)
    → host ≢ []
    → ((c : ℕ) (rest : Text) → host ≡ c ∷ rest → (c == b'[') ≡ false)
    → valid_host python host ≡ true
    → 0 < port
    → port ≤ 65535
    → split_endpoint python (host ++ (b':' ∷ show port)) lineno ≡ ok (host, port)
unfolding split_endpoint
split_endpoint-join python host port lineno ne bracket valid low high =
    ap (check_endpoint python (host ++ (b':' ∷ show port)) lineno)
      (endpoint_parts-join host (show port) ne bracket (show-free b':' port (omega arith)))
    ∙ checked python host (show port) (host ++ (b':' ∷ show port)) port lineno ne (read-show port)
        valid low high

keepalive_of-show :
    (seconds lineno : ℕ) → seconds ≤ 65535 → keepalive_of (some (show seconds, lineno)) ≡ ok seconds
unfolding keepalive_of
keepalive_of-show seconds lineno high = rw (keepalive_of, read-show seconds) (ground (arith, high))

-- The fields of a canonical configuration, with the lines of the last ones.
abbrev pub good_fields : Parsed → Option (Text × ℕ) → ℕ → Fields
good_fields p preshared lineno = record {
  private_key = some (p.private_key, 2);
  address = some (join (codes ", ") p.address, 3);
  dns = none;
  public_key = some (p.public_key, 6);
  endpoint = some (p.endpoint_host ++ (b':' ∷ show p.endpoint_port), lineno);
  preshared_key = preshared;
  allowed_ips = some (join (codes ", ") p.allowed_ips, lineno + 1);
  keepalive = some (show p.keepalive, lineno + 1 + 1);
}

or_default-ne : (entries : List Text) → entries ≢ [] → or_default entries ≡ entries
unfolding or_default
or_default-ne [] ne = absurd (ne refl)
or_default-ne (entry ∷ entries) ne = refl

module _ (python : Python) (p : Parsed) (valid : IsValid python p) (plain : IsWritable p)
    (networks : All (λ entry. python.is_network entry ≡ true) p.allowed_ips)
    (preshared : Option (Text × ℕ)) (lineno : ℕ) where
  endpoint_back :
      split_endpoint python (p.endpoint_host ++ (b':' ∷ show p.endpoint_port)) lineno
      ≡ ok (p.endpoint_host, p.endpoint_port)
  endpoint_back =
      split_endpoint-join python p.endpoint_host p.endpoint_port lineno plain.host.filled
        plain.no_bracket valid.host valid.port.0 valid.port.1

  pub good_fields-problems :
      key_problems python (codes "[Peer] PresharedKey") preshared ≡ []
      → field_problems python (good_fields p preshared lineno) ≡ []
  unfolding field_problems problem_lists key_problems problem_if missing missing_problem concat
      entries_of endpoint_of problems_of all_refused
  good_fields-problems shared = concat-All (problem_lists python (good_fields p preshared lineno)) (
    refl,
    (
      rw valid.private_key refl,
      (
        rw valid.public_key refl,
        (
          shared,
          (
            rw (csv-join p.address plain.address.0 plain.address.1)
                (refused-All python.is_interface _ p.address valid.address),
            (
              rw endpoint_back refl,
              (
                rw (csv-join p.allowed_ips plain.allowed_ips.0 plain.allowed_ips.1)
                    (refused-All python.is_network _ p.allowed_ips networks),
                (
                  refl,
                  (rw (keepalive_of-show p.keepalive (lineno + 1 + 1) valid.keepalive) refl, tt),
                ),
              ),
            ),
          ),
        ),
      ),
    ),
  )

  pub good_fields-parsed :
      parsed_of python (good_fields p preshared lineno)
      ≡ record p { preshared_key = text_of preshared }
  unfolding parsed_of value_of entries_of endpoint_of result_or
  good_fields-parsed =
      rw
        (
          csv-join p.address plain.address.0 plain.address.1,
          csv-join p.allowed_ips plain.allowed_ips.0 plain.allowed_ips.1,
          or_default-ne p.allowed_ips plain.allowed_ips.0,
          endpoint_back,
          keepalive_of-show p.keepalive (lineno + 1 + 1) valid.keepalive,
        )
        refl
