-- ===== src/Wgconf.antt =====
-- wgconf.py: the parser of WireGuard configurations and their canonical form.
pub mod Sections
pub mod Fields
pub mod Canonical
use anyhop.Prelude.{
  ℕ, zero, suc, ◌+◌, ◌<◌, Bool, true, false, not, ◌&&◌, ◌||◌, Option, none, some, List, [], ◌∷◌,
  ◌++◌, map, Text, codes, ◌==◌, ltb, leb, contains, list_eq, nat_eq, option_eq, if◌then◌else◌,
}
use anyhop.Prelude.Decimal.{read, show}
use anyhop.Prelude.Dict.{Dict, lookup, assign}
use anyhop.Prelude.Lists.{length, select, find}
use anyhop.Prelude.Strings.{
  is_break, split_lines, strip, has_char, split_first, split_last, split_all, join,
}
use anyhop.Result.{Result, ok, err}

-- The problems that one `ConfError` collects, with their lines.
pub data Problem : Type 0 where
  unsupported_section : ℕ → Text → Problem
  duplicate_section : ℕ → Text → ℕ → Problem
  not_key_value : ℕ → Problem
  before_any_section : ℕ → Text → Problem
  duplicate_key : ℕ → Text → ℕ → Problem
  missing_fields : List Text → Problem
  bad_key : ℕ → Text → Problem
  bad_address : ℕ → Text → Problem
  bad_endpoint : ℕ → Text → Problem
  bad_endpoint_host : ℕ → Text → Problem
  bad_allowed_ips : ℕ → Text → Problem
  bad_dns : ℕ → Text → Problem
  bad_keepalive : ℕ → Text → Problem

-- What the parser asks of Python: `str.lower`, which texts `ipaddress` reads as an address, as an
-- interface and as a network, and base64.
pub record Python : Type 0 where
  pub lower : Text → Text
  pub is_address : Text → Bool
  pub is_interface : Text → Bool
  pub is_network : Text → Bool
  pub decode : Text → Option (List ℕ)
  pub encode : List ℕ → Text

abbrev pub Entries : Type 0
Entries = Dict Text (Text × ℕ)

pub data Section : Type 0 where
  outside ignored interface peer : Section

-- The variables of `_sections`.
pub record Scan : Type 0 where
  pub section : Section
  pub interface_keys : Entries
  pub peer_keys : Entries
  pub errors : List Problem
  pub seen_sections : Dict Text ℕ

abbrev pub start_scan : Scan
start_scan = record {
  section = outside;
  interface_keys = [];
  peer_keys = [];
  errors = [];
  seen_sections = [];
}

unfoldable pub report : Problem → Scan → Scan
report problem scan = record scan { errors = scan.errors ++ problem ∷ [] }

unfoldable pub ends_with : ℕ → Text → Bool
ends_with x [] = false
ends_with x (c ∷ []) = c == x
ends_with x (c ∷ d ∷ text) = ends_with x (d ∷ text)

unfoldable pub drop_last : Text → Text
drop_last [] = []
drop_last (c ∷ []) = []
drop_last (c ∷ d ∷ text) = c ∷ drop_last (d ∷ text)

-- `line[1:-1]` of a line that starts with `[` and ends with `]`
unfoldable pub heading : Text → Option Text
heading [] = none
heading (c ∷ text) = if c == b'[' && ends_with b']' (c ∷ text) then some (drop_last text) else none

unfoldable pub section_of : Text → Section
section_of name = if name == codes "interface" then interface else peer

unfoldable pub open_section : ℕ → Text → Scan → Scan
unfolding report section_of
open_section lineno name scan =
    if not (name == codes "interface" || name == codes "peer")
    then record (report (unsupported_section lineno name) scan) { section = ignored }
    else elim (lookup name scan.seen_sections) [
      | some first ↦ record (report (duplicate_section lineno name first) scan) {
        section = ignored;
      }
      | none ↦ record scan {
        section = section_of name;
        seen_sections = assign name lineno scan.seen_sections;
      }
    ]

-- `_LIST_KEYS`
unfoldable pub is_list_key : Text → Bool
is_list_key key = key == codes "address" || key == codes "allowedips" || key == codes "dns"

unfoldable pub set_key : Text → Text → ℕ → Entries → Result Problem Entries
unfolding is_list_key
set_key key value lineno keys = elim (lookup key keys) [
  | none ↦ ok (assign key (value, lineno) keys)
  | some (old, first) ↦
      if is_list_key key
      then ok (assign key (old ++ codes ", " ++ value, first) keys)
      else err (duplicate_key lineno key first)
]

unfoldable pub add_key : ℕ → Text → Text → Scan → Scan
add_key lineno key value scan = elim scan.section [
  | outside ↦ report (before_any_section lineno key) scan
  | ignored ↦ scan
  | interface ↦ elim (set_key key value lineno scan.interface_keys) [
    | err problem ↦ report problem scan
    | ok keys ↦ record scan { interface_keys = keys }
  ]
  | peer ↦ elim (set_key key value lineno scan.peer_keys) [
    | err problem ↦ report problem scan
    | ok keys ↦ record scan { peer_keys = keys }
  ]
]

module _ (python : Python) where
  unfoldable pub scan_key : ℕ → Text → Scan → Scan
  scan_key lineno line scan =
      let (key, value) = split_first b'=' line in
      if has_char b'=' line
      then add_key lineno (python.lower (strip key)) (strip value) scan
      else report (not_key_value lineno) scan

  -- A line that is not empty: with the heading that it is, if any.
  unfoldable pub scan_heading : Option Text → ℕ → Text → Scan → Scan
  scan_heading (some name) lineno line scan = open_section lineno (python.lower (strip name)) scan
  scan_heading none lineno line scan = scan_key lineno line scan

  unfoldable pub scan_stripped : Text → ℕ → Scan → Scan
  scan_stripped [] lineno scan = scan
  scan_stripped (c ∷ text) lineno scan =
      if c == b'#' then scan else scan_heading (heading (c ∷ text)) lineno (c ∷ text) scan

  -- One round of the loop.
  unfoldable pub scan_line : ℕ → Text → Scan → Scan
  scan_line lineno raw scan = scan_stripped (strip raw) lineno scan

  unfoldable pub scan_lines : ℕ → List Text → Scan → Scan
  scan_lines lineno [] scan = scan
  scan_lines lineno (raw ∷ lines) scan = scan_lines (lineno + 1) lines (scan_line lineno raw scan)

  -- `_sections`
  unfoldable pub sections : Text → Scan
  sections text = scan_lines 1 (split_lines text) start_scan

-- `_csv`
unfoldable pub csv : Text → List Text
csv value = select (λ (p : Text). not (p == [])) (map strip (split_all b',' value))
