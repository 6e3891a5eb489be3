-- ===== src/Wgconf/Sections.antt =====
-- About `_sections` of wgconf.py: two servers are never merged.
use anyhop.Prelude.{
  ℕ, ◌+◌, inl, inr, ◌≡◌, ◌≢◌, ◌⊎◌, refl, ap, Option-cases, Bool-cases, Bool, true, false, ◌||◌,
  Option, none, some, List, [], ◌∷◌, ◌++◌, arith, Text, codes, ◌==◌, list_eq, nat_eq,
}
use anyhop.Prelude.Dict.{lookup, assign, lookup-assign}
use anyhop.Prelude.Strings.{split_lines, strip, has_char}
use anyhop.Result.{Result, ok, err}
use anyhop.Wgconf.{
  Problem, unsupported_section, duplicate_section, before_any_section, not_key_value, Entries,
  Python, Section, outside, ignored, interface, peer, Scan, start_scan, report, heading, section_of,
  open_section, set_key, add_key, scan_key, scan_line, scan_heading, scan_stripped, scan_lines,
  sections,
}
use anyhop.Wgconf.Fields.{field_problems, fields_of, parsed_of, verdict, parse_scan, parse}

-- A line leaves the problems and the sections that were seen.
record Grows (before after : Scan) : Type 0 where
  faulty : before.errors ≢ [] → after.errors ≢ []
  seen :
      (name : Text) (line : ℕ)
      → lookup name before.seen_sections ≡ some line
      → (other : ℕ) × (lookup name after.seen_sections ≡ some other)

Grows-refl : (scan : Scan) → Grows scan scan
Grows-refl scan = record { faulty = λ e. e; seen = λ name line e. (line, e) }

Grows-trans : (a b c : Scan) → Grows a b → Grows b c → Grows a c
Grows-trans a b c first second = record {
  faulty = λ e. second.faulty (first.faulty e);
  seen = λ name line e. let (other, f) = first.seen name line e in second.seen name other f;
}

concat-ne : (xs : List Problem) (p : Problem) → xs ++ p ∷ [] ≢ []
concat-ne [] p e = cc
concat-ne (x ∷ xs) p e = cc

report-Grows : (problem : Problem) (scan : Scan) → Grows scan (report problem scan)
unfolding report
report-Grows problem scan = record {
  faulty = λ e. concat-ne scan.errors problem;
  seen = λ name line e. (line, e);
}

-- The two sections that a configuration has.
abbrev is_known : Text → Bool
is_known name = name == codes "interface" || name == codes "peer"

module _ (lineno : ℕ) (name : Text) (scan : Scan) where
  open_section-unknown :
      is_known name ≡ false
      → open_section lineno name scan
        ≡ record (report (unsupported_section lineno name) scan) { section = ignored }
  unfolding open_section
  open_section-unknown unknown = rw (open_section, unknown) refl

  open_section-again :
      (first : ℕ)
      → is_known name ≡ true
      → lookup name scan.seen_sections ≡ some first
      → open_section lineno name scan
        ≡ record (report (duplicate_section lineno name first) scan) { section = ignored }
  unfolding open_section
  open_section-again first known found = rw (open_section, known, found) refl

  open_section-first :
      is_known name ≡ true
      → lookup name scan.seen_sections ≡ none
      → open_section lineno name scan ≡ record scan {
        section = section_of name;
        seen_sections = assign name lineno scan.seen_sections;
      }
  unfolding open_section
  open_section-first known absent = rw (open_section, known, absent) refl

  open_section-Grows : Grows scan (open_section lineno name scan)
  unfolding report
  open_section-Grows = elim (Bool-cases (is_known name)) [
    | inr unknown ↦ rw (open_section-unknown unknown) (record {
      faulty = λ e. concat-ne scan.errors (unsupported_section lineno name);
      seen = λ other line e. (line, e);
    })
    | inl known ↦ elim (Option-cases (lookup name scan.seen_sections)) [
      | inl absent ↦ rw (open_section-first known absent) (record {
        faulty = λ e. e;
        seen = λ other line e. elim (list_eq.dec name other) [
          | yes same ↦
              (lineno, ground (arith, same, lookup-assign other name lineno scan.seen_sections))
          | no ne ↦
              (line, ground (arith, ne, e, lookup-assign other name lineno scan.seen_sections))
        ];
      })
      | inr (first, found) ↦ rw (open_section-again first known found) (record {
        faulty = λ e. concat-ne scan.errors (duplicate_section lineno name first);
        seen = λ other line e. (line, e);
      })
    ]
  ]

  -- The heading of a section that is known is seen then, or the scan has a problem.
  open_section-seen :
      is_known name ≡ true
      → (first : ℕ) × (lookup name (open_section lineno name scan).seen_sections ≡ some first)
  unfolding report
  open_section-seen known = elim (Option-cases (lookup name scan.seen_sections)) [
    | inl absent ↦ (
      lineno,
      rw (open_section-first known absent)
          (ground (arith, lookup-assign name name lineno scan.seen_sections)),
    )
    | inr (first, found) ↦ (first, rw (open_section-again first known found) found)
  ]

  open_section-faulty :
      (first : ℕ)
      → is_known name ≡ true
      → lookup name scan.seen_sections ≡ some first
      → (open_section lineno name scan).errors ≢ []
  unfolding report
  open_section-faulty first known found =
      rw (open_section-again first known found)
        (concat-ne scan.errors (duplicate_section lineno name first))

add_key-Grows :
    (lineno : ℕ) (key value : Text) (scan : Scan) → Grows scan (add_key lineno key value scan)
unfolding add_key
add_key-Grows lineno key value scan = from scan.section
  where
    into :
        (r : Result Problem Entries) (put : Entries → Scan)
        → ((keys : Entries) → Grows scan (put keys))
        → Grows scan (elim r [ err problem ↦ report problem scan | ok keys ↦ put keys ])
    into (err problem) put grows = report-Grows problem scan
    into (ok keys) put grows = grows keys

    from :
        (section : Section)
        → Grows scan (elim section [
          | outside ↦ report (before_any_section lineno key) scan
          | ignored ↦ scan
          | interface ↦ elim (set_key key value lineno scan.interface_keys) [
            | err problem ↦ report problem scan
            | ok keys ↦ record scan { interface_keys = keys }
          ]
          | peer ↦ elim (set_key key value lineno scan.peer_keys) [
            | err problem ↦ report problem scan
            | ok keys ↦ record scan { peer_keys = keys }
          ]
        ])
    from outside = report-Grows (before_any_section lineno key) scan
    from ignored = Grows-refl scan
    from interface =
        into (set_key key value lineno scan.interface_keys)
          (λ keys. record scan { interface_keys = keys })
          (λ keys. record { faulty = λ f. f; seen = λ name line f. (line, f) })
    from peer =
        into (set_key key value lineno scan.peer_keys) (λ keys. record scan { peer_keys = keys })
          (λ keys. record { faulty = λ f. f; seen = λ name line f. (line, f) })

module _ (python : Python) where
  scan_key-Grows :
      (lineno : ℕ) (line : Text) (scan : Scan) → Grows scan (scan_key python lineno line scan)
  unfolding scan_key
  scan_key-Grows lineno line scan = elim (Bool-cases (has_char b'=' line)) [
    | inl there ↦ rw (scan_key, there) (add_key-Grows lineno _ _ scan)
    | inr absent ↦ rw (scan_key, absent) (report-Grows (not_key_value lineno) scan)
  ]

  scan_heading-Grows :
      (name : Option Text) (lineno : ℕ) (line : Text) (scan : Scan)
      → Grows scan (scan_heading python name lineno line scan)
  unfolding scan_heading
  scan_heading-Grows (some name) lineno line scan = open_section-Grows lineno _ scan
  scan_heading-Grows none lineno line scan = scan_key-Grows lineno line scan

  scan_stripped-Grows :
      (line : Text) (lineno : ℕ) (scan : Scan) → Grows scan (scan_stripped python line lineno scan)
  unfolding scan_stripped
  scan_stripped-Grows [] lineno scan = Grows-refl scan
  scan_stripped-Grows (c ∷ text) lineno scan = elim (Bool-cases (c == b'#')) [
    | inl comment ↦ rw (scan_stripped, comment) (Grows-refl scan)
    | inr line ↦
        rw (scan_stripped, line) (scan_heading-Grows (heading (c ∷ text)) lineno (c ∷ text) scan)
  ]

  scan_line-Grows :
      (lineno : ℕ) (raw : Text) (scan : Scan) → Grows scan (scan_line python lineno raw scan)
  unfolding scan_line
  scan_line-Grows lineno raw scan = scan_stripped-Grows (strip raw) lineno scan

  scan_lines-Grows :
      (lineno : ℕ) (lines : List Text) (scan : Scan)
      → Grows scan (scan_lines python lineno lines scan)
  unfolding scan_lines
  scan_lines-Grows lineno [] scan = Grows-refl scan
  scan_lines-Grows lineno (raw ∷ lines) scan =
      let next = scan_line python lineno raw scan in
      Grows-trans scan next _ (scan_line-Grows lineno raw scan)
        (scan_lines-Grows (lineno + 1) lines next)

  -- The line is the heading of the section.
  abbrev pub IsHeading : Text → Text → Type 0
  IsHeading name raw =
      (inside : Text) × (heading (strip raw) ≡ some inside) × (python.lower (strip inside) ≡ name)

  scan_stripped-heading :
      (line name inside : Text) (lineno : ℕ) (scan : Scan)
      → heading line ≡ some inside
      → python.lower (strip inside) ≡ name
      → scan_stripped python line lineno scan ≡ open_section lineno name scan
  unfolding scan_stripped scan_heading heading
  scan_stripped-heading [] name inside lineno scan head same = cc
  scan_stripped-heading (c ∷ text) name inside lineno scan head same =
      let line : (c == b'#') ≡ false = ground (arith, head) in
      let it : scan_heading python (heading (c ∷ text)) lineno (c ∷ text) scan
          ≡ open_section lineno name scan =
        rw head (ap (λ n. open_section lineno n scan) same) in
      rw (scan_stripped, line) it

  scan_line-heading :
      (name raw : Text) (lineno : ℕ) (scan : Scan)
      → IsHeading name raw
      → scan_line python lineno raw scan ≡ open_section lineno name scan
  unfolding scan_line
  scan_line-heading name raw lineno scan (inside, head, same) =
      scan_stripped-heading (strip raw) name inside lineno scan head same

  -- A second heading of a section is a problem, whatever stands between.
  found-faulty :
      (name raw : Text) (middle after : List Text) (lineno first : ℕ) (scan : Scan)
      → is_known name ≡ true
      → IsHeading name raw
      → lookup name scan.seen_sections ≡ some first
      → (scan_lines python lineno (middle ++ raw ∷ after) scan).errors ≢ []
  unfolding scan_lines
  found-faulty name raw [] after lineno first scan known head seen =
      (scan_lines-Grows (lineno + 1) after (scan_line python lineno raw scan)).faulty (
        rw (scan_line-heading name raw lineno scan head)
          (open_section-faulty lineno name scan first known seen))
  found-faulty name raw (line ∷ middle) after lineno first scan known head seen =
      let next = scan_line python lineno line scan in
      let (other, still) = (scan_line-Grows lineno line scan).seen name first seen in
      found-faulty name raw middle after (lineno + 1) other next known head still

  repeated-faulty :
      (name raw again : Text) (before middle after : List Text) (lineno : ℕ) (scan : Scan)
      → is_known name ≡ true
      → IsHeading name raw
      → IsHeading name again
      → (scan_lines python lineno (before ++ raw ∷ middle ++ again ∷ after) scan).errors ≢ []
  unfolding scan_lines
  repeated-faulty name raw again [] middle after lineno scan known head head2 =
      let (first, seen) = open_section-seen lineno name scan known in
      found-faulty name again middle after (lineno + 1) first (scan_line python lineno raw scan)
        known head2 (rw (scan_line-heading name raw lineno scan head) seen)
  repeated-faulty name raw again (line ∷ before) middle after lineno scan known head head2 =
      repeated-faulty name raw again before middle after (lineno + 1)
        (scan_line python lineno line scan) known head head2

  faulty-parse_scan :
      (scan : Scan)
      → scan.errors ≢ []
      → (p : Problem) × (more : List Problem) × (parse_scan python scan ≡ err (p ∷ more))
  unfolding parse_scan verdict
  faulty-parse_scan scan ne = from scan.errors ne
    where
      from :
          (errors : List Problem)
          → errors ≢ []
          → (p : Problem) × (more : List Problem) × (verdict
                (errors ++ field_problems python (fields_of scan))
                (parsed_of python (fields_of scan))
              ≡ err (p ∷ more))
      from [] none_of = absurd (none_of refl)
      from (p ∷ more) some_of = (p, more ++ field_problems python (fields_of scan), refl)

  -- A text with two headings of one section, whatever stands around them, is refused.
  pub parse-repeated :
      (name text raw again : Text) (before middle after : List Text)
      → (name ≡ codes "interface") ⊎ (name ≡ codes "peer")
      → split_lines text ≡ before ++ raw ∷ middle ++ again ∷ after
      → IsHeading name raw
      → IsHeading name again
      → (p : Problem) × (more : List Problem) × (parse python text ≡ err (p ∷ more))
  unfolding parse sections
  parse-repeated name text raw again before middle after kind lines head head2 =
      faulty-parse_scan (sections python text) (
        rw (sections, lines)
          (repeated-faulty name raw again before middle after 1 start_scan (ground (arith, kind))
            head head2))
