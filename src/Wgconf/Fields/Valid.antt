-- ===== src/Wgconf/Fields/Valid.antt =====
-- About `parse` of wgconf.py: what it accepts.
use mathlib.Core.Path.{subst}
use anyhop.Prelude.{
  ℕ, ◌<◌, ◌≤◌, inl, inr, ◌≡◌, ◌⊎◌, refl, Option-cases, Bool-cases, Bool, true, Option, none, some,
  List, [], ◌∷◌, ◌++◌, arith, Text, list_eq, nat_eq,
}
use anyhop.Prelude.Decimal.{read}
use anyhop.Prelude.Lists.{find, All}
use anyhop.Result.{Result, ok, err}
use anyhop.Wgconf.{Problem, Python, Scan, sections}
use anyhop.Wgconf.Fields.{
  concat, missing, missing_problem, problem_if, entries_of, value_of, refused, keepalive_of, Parsed,
  or_default, problems_of, result_or, text_of, valid_host, is_wg_key, key_problems, endpoint_parts,
  check_endpoint, split_endpoint, endpoint_of, Fields, fields_of, problem_lists, field_problems,
  parsed_of, verdict, parse_scan, parse,
}

append-empty : {A : Type 0} (xs ys : List A) → xs ++ ys ≡ [] → (xs ≡ []) × (ys ≡ [])
append-empty [] ys e = (refl, e)
append-empty (x ∷ xs) ys e = cc

concat-empty : {A : Type 0} (xss : List (List A)) → concat xss ≡ [] → All (λ xs. xs ≡ []) xss
unfolding concat
concat-empty [] e = tt
concat-empty (xs ∷ xss) e =
    let (now, later) = append-empty xs (concat xss) e in (now, concat-empty xss later)

missing-some :
    (name : Text) (o : Option (Text × ℕ))
    → missing name o ≡ []
    → (entry : Text × ℕ) × (o ≡ some entry)
unfolding missing
missing-some name none e = cc
missing-some name (some entry) e = (entry, refl)

missing_problem-empty : (names : List Text) → missing_problem names ≡ [] → names ≡ []
unfolding missing_problem
missing_problem-empty [] e = refl
missing_problem-empty (name ∷ names) e = cc

key_problems-empty :
    (python : Python) (name value : Text) (o : Option (Text × ℕ))
    → key_problems python name o ≡ []
    → text_of o ≡ some value
    → is_wg_key python value ≡ true
unfolding key_problems problem_if text_of
key_problems-empty python name value none e same = cc
key_problems-empty python name value (some (v, l)) e same =
    let this : is_wg_key python v ≡ true = ground (arith, e) in
    let equal : v ≡ value = cc in subst (λ (x : Text). is_wg_key python x ≡ true) equal this

refused-empty :
    (test : Text → Bool) (problem : Text → Problem) (entries : List Text)
    → refused test problem entries ≡ []
    → All (λ entry. test entry ≡ true) entries
unfolding refused find
refused-empty test problem [] e = tt
refused-empty test problem (entry ∷ entries) e = elim (Bool-cases (test entry)) [
  | inl good ↦ (good, refused-empty test problem entries (ground (arith, e, good)))
  | inr bad ↦ absurd (ground (arith, e, bad))
]

split_endpoint-ok :
    (python : Python) (endpoint host : Text) (lineno port : ℕ)
    → split_endpoint python endpoint lineno ≡ ok (host, port)
    → (valid_host python host ≡ true) × (0 < port) × (port ≤ 65535)
unfolding split_endpoint check_endpoint
split_endpoint-ok python endpoint host lineno port e =
    let parts = endpoint_parts endpoint in
    elim (Option-cases (read parts.1)) [
      | inl unread ↦ absurd (ground (arith, e, unread))
      | inr (number, found) ↦ elim (Bool-cases (valid_host python parts.0)) [
        | inl valid ↦
            let here : parts.0 ≡ host = ground (arith, e, found, valid) in
            (
              subst (λ (h : Text). valid_host python h ≡ true) here valid,
              ground (arith, e, found, valid),
              ground (arith, e, found, valid),
            )
        | inr invalid ↦ absurd (ground (arith, e, found, invalid))
      ]
    ]

keepalive-le :
    (o : Option (Text × ℕ))
    → problems_of (keepalive_of o) ≡ []
    → result_or 25 (keepalive_of o) ≤ 65535
unfolding keepalive_of problems_of result_or
keepalive-le none e = omega arith
keepalive-le (some (value, lineno)) e = ground (arith, e)

-- A configuration that sing-box can act on.
pub record IsValid (python : Python) (parsed : Parsed) : Type 0 where
  pub private_key : is_wg_key python parsed.private_key ≡ true
  pub public_key : is_wg_key python parsed.public_key ≡ true
  pub preshared_key : (key : Text) → parsed.preshared_key ≡ some key → is_wg_key python key ≡ true
  pub address : All (λ entry. python.is_interface entry ≡ true) parsed.address
  pub host : valid_host python parsed.endpoint_host ≡ true
  pub port : (0 < parsed.endpoint_port) × (parsed.endpoint_port ≤ 65535)
  pub allowed_ips :
      (parsed.allowed_ips ≡ or_default [])
      ⊎ All (λ entry. python.is_network entry ≡ true) parsed.allowed_ips
  pub keepalive : parsed.keepalive ≤ 65535

endpoint_of-ok :
    (python : Python) (entry : Text × ℕ) (o : Option (Text × ℕ))
    → problems_of (endpoint_of python o) ≡ []
    → o ≡ some entry
    → (valid_host python (result_or ([], 0) (endpoint_of python o)).0 ≡ true)
      × (0 < (result_or ([], 0) (endpoint_of python o)).1)
      × ((result_or ([], 0) (endpoint_of python o)).1 ≤ 65535)
unfolding endpoint_of problems_of result_or
endpoint_of-ok python entry none e same = cc
endpoint_of-ok python entry (some (value, lineno)) e same =
    read_of (split_endpoint python value lineno) refl e
  where
    read_of :
        (r : Result Problem (Text × ℕ))
        → split_endpoint python value lineno ≡ r
        → problems_of r ≡ []
        → (valid_host python (result_or ([], 0) r).0 ≡ true)
          × (0 < (result_or ([], 0) r).1)
          × ((result_or ([], 0) r).1 ≤ 65535)
    read_of (ok (host, port)) found clean = split_endpoint-ok python value host lineno port found
    read_of (err problem) found clean = absurd (ground (arith, clean))

or_default-All :
    (python : Python) (entries : List Text)
    → All (λ entry. python.is_network entry ≡ true) entries
    → (or_default entries ≡ or_default [])
      ⊎ All (λ entry. python.is_network entry ≡ true) (or_default entries)
unfolding or_default
or_default-All python [] good = inl refl
or_default-All python (entry ∷ entries) good = inr good

pub parsed_of-IsValid :
    (python : Python) (f : Fields)
    → field_problems python f ≡ []
    → IsValid python (parsed_of python f)
unfolding field_problems problem_lists parsed_of value_of text_of
parsed_of-IsValid python f e =
    let (
      names,
      (private, (public, (preshared, (address, (endpoint, (allowed, (dns, (keepalive, end)))))))),
    ) =
      concat-empty (problem_lists python f) e in
    let (has_private, (has_address, (has_public, (has_endpoint, last)))) =
      concat-empty _ (missing_problem-empty _ names) in
    let (p, private_given) = missing-some _ f.private_key has_private in
    let (q, public_given) = missing-some _ f.public_key has_public in
    let (r, endpoint_given) = missing-some _ f.endpoint has_endpoint in
    let (host, low, high) = endpoint_of-ok python r f.endpoint endpoint endpoint_given in
    record {
      private_key =
          rw private_given
            (key_problems-empty python _ p.0 f.private_key private (rw private_given refl));
      public_key =
          rw public_given
            (key_problems-empty python _ q.0 f.public_key public (rw public_given refl));
      preshared_key = λ key. key_problems-empty python _ key f.preshared_key preshared;
      address = refused-empty python.is_interface _ (entries_of f.address) address;
      host = host;
      port = (low, high);
      allowed_ips =
          or_default-All python (entries_of f.allowed_ips)
            (refused-empty python.is_network _ (entries_of f.allowed_ips) allowed);
      keepalive = keepalive-le f.keepalive keepalive;
    }

-- What the parser accepts has valid keys, addresses and networks, an endpoint whose host is
-- valid with a port from 1 to 65535, and a keepalive of at most 65535 seconds.
pub parse-IsValid :
    (python : Python) (text : Text) (parsed : Parsed)
    → parse python text ≡ ok parsed
    → IsValid python parsed
unfolding parse parse_scan verdict
parse-IsValid python text parsed e =
    let scan = sections python text in
    read_of (scan.errors ++ field_problems python (fields_of scan)) refl
  where
    scan : Scan
    scan = sections python text

    read_of :
        (found : List Problem)
        → scan.errors ++ field_problems python (fields_of scan) ≡ found
        → IsValid python parsed
    read_of [] none_found =
        let (lines, rest) = append-empty scan.errors _ none_found in
        subst (IsValid python) (ground (arith, e, none_found))
          (parsed_of-IsValid python (fields_of scan) rest)
    read_of (problem ∷ more) found = absurd (ground (arith, e, found))
