-- ===== src/Wgconf/Fields.antt =====
-- The checks of wgconf.py on the fields of a configuration, and `parse`.
pub mod Valid
use anyhop.Prelude.{
  ℕ, Bool, true, false, not, ◌&&◌, ◌||◌, Option, none, some, List, [], ◌∷◌, ◌++◌, Text, codes, ◌==◌,
  ltb, leb, list_eq, nat_eq, if◌then◌else◌,
}
use anyhop.Prelude.Decimal.{read}
use anyhop.Prelude.Dict.{lookup}
use anyhop.Prelude.Lists.{length, find}
use anyhop.Prelude.Strings.{has_char, split_last, split_all}
use anyhop.Result.{Result, ok, err}
use anyhop.Wgconf.{
  Problem, missing_fields, bad_key, bad_address, bad_endpoint, bad_endpoint_host, bad_allowed_ips,
  bad_dns, bad_keepalive, Python, Entries, Scan, sections, csv, ends_with,
}

-- `[a-z0-9]` without regard to case, with the four letters that Python adds to it.
unfoldable pub is_alnum : ℕ → Bool
is_alnum c =
    (leb b'0' c && leb c b'9')
    || (leb b'a' c && leb c b'z')
    || (leb b'A' c && leb c b'Z')
    || c == 304
    || c == 305
    || c == 383
    || c == 8490

unfoldable pub all_of : (ℕ → Bool) → Text → Bool
all_of test [] = true
all_of test (c ∷ text) = test c && all_of test text

-- `[a-z0-9]([a-z0-9-]{0,61}[a-z0-9])?`
unfoldable pub is_label : Text → Bool
is_label [] = false
is_label (c ∷ text) =
    is_alnum c
    && all_of (λ d. is_alnum d || d == b'-') text
    && not (ends_with b'-' (c ∷ text))
    && leb (length (c ∷ text)) 63

unfoldable pub all_labels : List Text → Bool
all_labels [] = true
all_labels (label ∷ labels) = is_label label && all_labels labels

-- `_HOST_RE`
unfoldable pub is_hostname : Text → Bool
is_hostname host = ltb 0 (length host) && leb (length host) 253 && all_labels (split_all b'.' host)

-- `endpoint[1:].partition("]:")` without the separator, where it occurs.
unfoldable pub split_bracket : Text → Option (Text × Text)
split_bracket [] = none
split_bracket (c ∷ []) = none
split_bracket (c ∷ d ∷ text) =
    let rest = split_bracket (d ∷ text) in
    if c == b']' && d == b':'
    then some ([], text)
    else elim rest [ none ↦ none | some (host, port) ↦ some (c ∷ host, port) ]

-- The host and the text of the port.
unfoldable pub endpoint_parts : Text → Text × Text
endpoint_parts [] = ([], [])
endpoint_parts (c ∷ text) =
    if c == b'['
    then elim (split_bracket text) [ none ↦ (text, []) | some parts ↦ parts ]
    else split_last b':' (c ∷ text)

-- `section.get(key)` where the value is not empty
unfoldable pub given : Text → Entries → Option (Text × ℕ)
given key keys = elim (lookup key keys) [
  | none ↦ none
  | some ([], lineno) ↦ none
  | some (c ∷ value, lineno) ↦ some (c ∷ value, lineno)
]

-- Lists of problems that are appended in a row.
unfoldable pub concat : {A : Type 0} → List (List A) → List A
concat [] = []
concat (xs ∷ xss) = xs ++ concat xss

-- One name, where the field is missing.
unfoldable pub missing : Text → Option (Text × ℕ) → List Text
missing name none = name ∷ []
missing name (some entry) = []

unfoldable pub missing_problem : List Text → List Problem
missing_problem [] = []
missing_problem (name ∷ names) = missing_fields (name ∷ names) ∷ []

-- The problem of a value that a check refuses.
unfoldable pub problem_if : Bool → Problem → List Problem
problem_if true problem = problem ∷ []
problem_if false problem = []

-- The entries of a list field.
unfoldable pub entries_of : Option (Text × ℕ) → List Text
entries_of none = []
entries_of (some (value, lineno)) = csv value

unfoldable pub line_of : Option (Text × ℕ) → ℕ
line_of none = 0
line_of (some (value, lineno)) = lineno

unfoldable pub value_of : Option (Text × ℕ) → Text
value_of none = []
value_of (some (value, lineno)) = value

-- The first entry that a check refuses.
unfoldable pub refused : (Text → Bool) → (Text → Problem) → List Text → List Problem
refused test problem entries = elim (find (λ (entry : Text). not (test entry)) entries) [
  | none ↦ []
  | some bad ↦ problem bad ∷ []
]

-- Each entry that a check refuses.
unfoldable pub all_refused : (Text → Bool) → (Text → Problem) → List Text → List Problem
all_refused test problem [] = []
all_refused test problem (entry ∷ entries) =
    problem_if (not (test entry)) (problem entry) ++ all_refused test problem entries

-- The seconds, 25 where the key is not there, or the text that is refused.
unfoldable pub keepalive_of : Option (Text × ℕ) → Result Problem ℕ
keepalive_of none = ok 25
keepalive_of (some (value, lineno)) = elim (read value) [
  | none ↦ err (bad_keepalive lineno value)
  | some seconds ↦ if leb seconds 65535 then ok seconds else err (bad_keepalive lineno value)
]

pub record Parsed : Type 0 where
  pub private_key : Text
  pub address : List Text
  pub public_key : Text
  pub endpoint_host : Text
  pub endpoint_port : ℕ
  pub preshared_key : Option Text
  pub allowed_ips : List Text
  pub keepalive : ℕ

unfoldable pub or_default : List Text → List Text
or_default [] = codes "0.0.0.0/0" ∷ codes "::/0" ∷ []
or_default (entry ∷ entries) = entry ∷ entries

unfoldable pub problems_of : {A : Type 0} → Result Problem A → List Problem
problems_of (ok value) = []
problems_of (err problem) = problem ∷ []

unfoldable pub result_or : {A : Type 0} → A → Result Problem A → A
result_or other (ok value) = value
result_or other (err problem) = other

unfoldable pub text_of : Option (Text × ℕ) → Option Text
text_of none = none
text_of (some (value, lineno)) = some value

-- `if errors: raise ConfError(…)`
unfoldable pub verdict : List Problem → Parsed → Result (List Problem) Parsed
verdict [] parsed = ok parsed
verdict (problem ∷ more) parsed = err (problem ∷ more)

-- The fields that `parse` reads of a scan. An empty value counts as none, but for the keepalive.
pub record Fields : Type 0 where
  pub private_key : Option (Text × ℕ)
  pub address : Option (Text × ℕ)
  pub dns : Option (Text × ℕ)
  pub public_key : Option (Text × ℕ)
  pub endpoint : Option (Text × ℕ)
  pub preshared_key : Option (Text × ℕ)
  pub allowed_ips : Option (Text × ℕ)
  pub keepalive : Option (Text × ℕ)

unfoldable pub fields_of : Scan → Fields
fields_of scan = record {
  private_key = given (codes "privatekey") scan.interface_keys;
  address = given (codes "address") scan.interface_keys;
  dns = given (codes "dns") scan.interface_keys;
  public_key = given (codes "publickey") scan.peer_keys;
  endpoint = given (codes "endpoint") scan.peer_keys;
  preshared_key = given (codes "presharedkey") scan.peer_keys;
  allowed_ips = given (codes "allowedips") scan.peer_keys;
  keepalive = lookup (codes "persistentkeepalive") scan.peer_keys;
}

module _ (python : Python) where
  unfoldable pub valid_host : Text → Bool
  valid_host host = python.is_address host || is_hostname host

  -- The decoded bytes are 32, and their canonical form is the value.
  unfoldable pub is_wg_key : Text → Bool
  is_wg_key value = elim (python.decode value) [
    | none ↦ false
    | some bytes ↦ length bytes == 32 && python.encode bytes == value
  ]

  -- `_require_wg_key` of a field that is given
  unfoldable pub key_problems : Text → Option (Text × ℕ) → List Problem
  key_problems name none = []
  key_problems name (some (value, lineno)) =
      problem_if (not (is_wg_key value)) (bad_key lineno name)

  -- The host and the port of an endpoint, as texts, with what they stand in.
  unfoldable pub check_endpoint : Text → ℕ → Text × Text → Result Problem (Text × ℕ)
  check_endpoint endpoint lineno (host, port) = elim (read port) [
    | none ↦ err (bad_endpoint lineno endpoint)
    | some number ↦
        if host == [] || not (ltb 0 number && leb number 65535)
        then err (bad_endpoint lineno endpoint)
        else if valid_host host
        then ok (host, number)
        else err (bad_endpoint_host lineno host)
  ]

  -- `_split_endpoint`
  unfoldable pub split_endpoint : Text → ℕ → Result Problem (Text × ℕ)
  split_endpoint endpoint lineno = check_endpoint endpoint lineno (endpoint_parts endpoint)

  unfoldable pub endpoint_of : Option (Text × ℕ) → Result Problem (Text × ℕ)
  endpoint_of none = ok ([], 0)
  endpoint_of (some (value, lineno)) = split_endpoint value lineno

  -- The problems of the fields, each given with its line or not.
  unfoldable pub problem_lists : Fields → List (List Problem)
  problem_lists f =
      missing_problem (
        concat (
          missing (codes "[Interface] PrivateKey") f.private_key
          ∷ missing (codes "[Interface] Address") f.address
          ∷ missing (codes "[Peer] PublicKey") f.public_key
          ∷ missing (codes "[Peer] Endpoint") f.endpoint
          ∷ []))
      ∷ key_problems (codes "[Interface] PrivateKey") f.private_key
      ∷ key_problems (codes "[Peer] PublicKey") f.public_key
      ∷ key_problems (codes "[Peer] PresharedKey") f.preshared_key
      ∷ refused python.is_interface (bad_address (line_of f.address)) (entries_of f.address)
      ∷ problems_of (endpoint_of f.endpoint)
      ∷ refused python.is_network (bad_allowed_ips (line_of f.allowed_ips))
          (entries_of f.allowed_ips)
      ∷ all_refused valid_host (bad_dns (line_of f.dns)) (entries_of f.dns)
      ∷ problems_of (keepalive_of f.keepalive)
      ∷ []

  unfoldable pub field_problems : Fields → List Problem
  field_problems f = concat (problem_lists f)

  unfoldable pub parsed_of : Fields → Parsed
  parsed_of f = record {
    private_key = value_of f.private_key;
    address = entries_of f.address;
    public_key = value_of f.public_key;
    endpoint_host = (result_or ([], 0) (endpoint_of f.endpoint)).0;
    endpoint_port = (result_or ([], 0) (endpoint_of f.endpoint)).1;
    preshared_key = text_of f.preshared_key;
    allowed_ips = or_default (entries_of f.allowed_ips);
    keepalive = result_or 25 (keepalive_of f.keepalive);
  }

  unfoldable pub parse_scan : Scan → Result (List Problem) Parsed
  parse_scan scan =
      verdict (scan.errors ++ field_problems (fields_of scan)) (parsed_of (fields_of scan))

  unfoldable pub parse : Text → Result (List Problem) Parsed
  parse text = parse_scan (sections python text)
