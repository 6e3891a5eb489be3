-- ===== src/Wgconf/Canonical/RoundTrip.antt =====
-- About `parse` and `canonical` of wgconf.py: a canonical configuration is read back.
use mathlib.Core.Path.{subst}
use anyhop.Prelude.{
  ◌≡◌, ◌⊎◌, inl, inr, refl, sym, ap, ◌∙◌, true, false, Option, none, some, List, [], ◌∷◌, ◌++◌,
  arith, Text, codes, list_eq, nat_eq,
}
use anyhop.Prelude.Decimal.{show}
use anyhop.Prelude.Dict.{lookup}
use anyhop.Prelude.Lists.{All, All-append}
use anyhop.Prelude.Strings.{is_break, split_lines, join}
use anyhop.Prelude.Strings.Clean.{IsOneLine, IsClean, IsClean-append, show-IsClean}
use anyhop.Prelude.Strings.Joined.{split_lines-join}
use anyhop.Result.{ok}
use anyhop.Wgconf.{Python, Scan, start_scan, scan_lines, sections}
use anyhop.Wgconf.Fields.{
  given, problem_if, Parsed, or_default, text_of, key_problems, Fields, fields_of, field_problems,
  parsed_of, verdict, parse_scan, parse,
}
use anyhop.Wgconf.Fields.Valid.{IsValid}
use anyhop.Wgconf.Canonical.{shown, preshared_line, canonical_lines, canonical}
use anyhop.Wgconf.Canonical.Lines.{has_break, IsOneLine-tested, IsOneLine-prefixed}
use anyhop.Wgconf.Canonical.Scanned.{Lowers, in_peer, scan-plain, scan-shared}
use anyhop.Wgconf.Canonical.Checked.{
  IsWritable, clean-join, given-some, good_fields, good_fields-problems, good_fields-parsed,
}

parse_scan-clean :
    (python : Python) (scan : Scan) (f : Fields)
    → scan.errors ≡ []
    → fields_of scan ≡ f
    → field_problems python f ≡ []
    → parse_scan python scan ≡ ok (parsed_of python f)
unfolding parse_scan verdict
parse_scan-clean python scan f lines fields clean =
    let none_found : scan.errors ++ field_problems python (fields_of scan) ≡ [] =
      ap (λ xs. xs ++ field_problems python (fields_of scan)) lines
      ∙ ap (field_problems python) fields
      ∙ clean in
    ap (λ found. verdict found (parsed_of python (fields_of scan))) none_found
    ∙ ap (λ g. ok (parsed_of python g)) fields

module _ (python : Python) (lowers : Lowers python) (p : Parsed) (plain : IsWritable p) where
  abbrev endpoint_text : Text
  endpoint_text = p.endpoint_host ++ (b':' ∷ show p.endpoint_port)

  abbrev address_text : Text
  address_text = join (codes ", ") p.address

  abbrev allowed_text : Text
  allowed_text = join (codes ", ") p.allowed_ips

  endpoint-IsClean : IsClean endpoint_text
  unfolding is_break
  endpoint-IsClean =
      IsClean-append p.endpoint_host (b':' ∷ []) (show p.endpoint_port) plain.host
        (ground arith, tt) (show-IsClean p.endpoint_port)

  address-IsClean : IsClean address_text
  address-IsClean = clean-join p.address plain.address.0 plain.address.1

  allowed-IsClean : IsClean allowed_text
  allowed-IsClean = clean-join p.allowed_ips plain.allowed_ips.0 plain.allowed_ips.1

  abbrev plain_scan : Scan
  plain_scan =
      in_peer ((codes "privatekey", (p.private_key, 2)) ∷ (codes "address", (address_text, 3)) ∷ [])
        ((codes "publickey", (p.public_key, 6))
          ∷ (codes "endpoint", (endpoint_text, 7))
          ∷ (codes "allowedips", (allowed_text, 8))
          ∷ (codes "persistentkeepalive", (show p.keepalive, 9))
          ∷ [])

  fields-plain : fields_of plain_scan ≡ good_fields p none 7
  unfolding fields_of lookup nat_eq list_eq given
  fields-plain =
      rw
        (
          given-some (codes "privatekey") p.private_key 2 _ refl plain.private_key.filled,
          given-some (codes "address") address_text 3 _ refl address-IsClean.filled,
          given-some (codes "publickey") p.public_key 6 _ refl plain.public_key.filled,
          given-some (codes "endpoint") endpoint_text 7 _ refl endpoint-IsClean.filled,
          given-some (codes "allowedips") allowed_text 8 _ refl allowed-IsClean.filled,
        )
        refl

  abbrev shared_scan : Text → Scan
  shared_scan key =
      in_peer ((codes "privatekey", (p.private_key, 2)) ∷ (codes "address", (address_text, 3)) ∷ [])
        ((codes "publickey", (p.public_key, 6))
          ∷ (codes "presharedkey", (key, 7))
          ∷ (codes "endpoint", (endpoint_text, 8))
          ∷ (codes "allowedips", (allowed_text, 9))
          ∷ (codes "persistentkeepalive", (show p.keepalive, 10))
          ∷ [])

  fields-shared :
      (key : Text) → IsClean key → fields_of (shared_scan key) ≡ good_fields p (some (key, 7)) 8
  unfolding fields_of lookup nat_eq list_eq given
  fields-shared key clean =
      rw
        (
          given-some (codes "privatekey") p.private_key 2 _ refl plain.private_key.filled,
          given-some (codes "address") address_text 3 _ refl address-IsClean.filled,
          given-some (codes "publickey") p.public_key 6 _ refl plain.public_key.filled,
          given-some (codes "presharedkey") key 7 _ refl clean.filled,
          given-some (codes "endpoint") endpoint_text 8 _ refl endpoint-IsClean.filled,
          given-some (codes "allowedips") allowed_text 9 _ refl allowed-IsClean.filled,
        )
        refl

  last_lines-AreOneLine : All IsOneLine (
      (codes "Endpoint = " ++ endpoint_text)
      ∷ (codes "AllowedIPs = " ++ allowed_text)
      ∷ (codes "PersistentKeepalive = " ++ show p.keepalive)
      ∷ [])
  unfolding has_break is_break nat_eq
  last_lines-AreOneLine = (
    IsOneLine-prefixed (codes "Endpoint = ") endpoint_text refl endpoint-IsClean,
    (
      IsOneLine-prefixed (codes "AllowedIPs = ") allowed_text refl allowed-IsClean,
      (
        IsOneLine-prefixed (codes "PersistentKeepalive = ") (show p.keepalive) refl
            (show-IsClean p.keepalive),
        tt,
      ),
    ),
  )

  lines-back :
      (o : Option Text)
      → All IsOneLine (preshared_line false o)
      → split_lines (canonical false (record p { preshared_key = o }))
        ≡ canonical_lines false (record p { preshared_key = o })
  unfolding canonical canonical_lines shown has_break is_break nat_eq
  lines-back o one = split_lines-join _ _ (
    IsOneLine-tested (codes "[Interface]") refl,
    (
      IsOneLine-prefixed (codes "PrivateKey = ") p.private_key refl plain.private_key,
      (
        IsOneLine-prefixed (codes "Address = ") address_text refl address-IsClean,
        (
          tt,
          (
            IsOneLine-tested (codes "[Peer]") refl,
            (
              IsOneLine-prefixed (codes "PublicKey = ") p.public_key refl plain.public_key,
              All-append IsOneLine (preshared_line false o) _ one last_lines-AreOneLine,
            ),
          ),
        ),
      ),
    ),
  )

  sections-plain :
      sections python (canonical false (record p { preshared_key = none })) ≡ plain_scan
  unfolding sections canonical_lines preshared_line shown
  sections-plain =
      ap (λ ls. scan_lines python 1 ls start_scan) (lines-back none tt)
      ∙ scan-plain python lowers p.private_key address_text p.public_key endpoint_text allowed_text
          (show p.keepalive) plain.private_key address-IsClean plain.public_key endpoint-IsClean
          allowed-IsClean (show-IsClean p.keepalive)

  sections-shared :
      (key : Text)
      → IsClean key
      → sections python (canonical false (record p { preshared_key = some key })) ≡ shared_scan key
  unfolding sections canonical_lines preshared_line shown has_break is_break nat_eq
  sections-shared key clean =
      ap (λ ls. scan_lines python 1 ls start_scan)
        (lines-back (some key) (IsOneLine-prefixed (codes "PresharedKey = ") key refl clean, tt))
      ∙ scan-shared python lowers p.private_key address_text p.public_key endpoint_text allowed_text
          (show p.keepalive) plain.private_key address-IsClean plain.public_key endpoint-IsClean
          allowed-IsClean (show-IsClean p.keepalive) key clean

networks_of :
    (python : Python) (entries : List Text)
    → All (λ entry. python.is_network entry ≡ true) (or_default [])
    → (entries ≡ or_default []) ⊎ All (λ entry. python.is_network entry ≡ true) entries
    → All (λ entry. python.is_network entry ≡ true) entries
networks_of python entries defaults (inl same) =
    subst (All (λ entry. python.is_network entry ≡ true)) (sym same) defaults
networks_of python entries defaults (inr all) = all

-- If `str.lower` lowers the words of the format and the default networks are networks, then the
-- canonical text of a valid configuration, with an address and an allowed network at least,
-- whose texts a line can hold, is parsed, and gives the same configuration.
pub parse-canonical :
    (python : Python) (parsed : Parsed)
    → Lowers python
    → All (λ entry. python.is_network entry ≡ true) (or_default [])
    → IsValid python parsed
    → IsWritable parsed
    → parse python (canonical false parsed) ≡ ok parsed
unfolding parse key_problems problem_if text_of
parse-canonical python p lowers defaults valid plain = from p.preshared_key refl
  where
    networks : All (λ entry. python.is_network entry ≡ true) p.allowed_ips
    networks = networks_of python p.allowed_ips defaults valid.allowed_ips

    from :
        (o : Option Text)
        → p.preshared_key ≡ o
        → parse python (canonical false (record p { preshared_key = o }))
          ≡ ok (record p { preshared_key = o })
    from none same =
        ap (parse_scan python) (sections-plain python lowers p plain)
        ∙ parse_scan-clean python (plain_scan python lowers p plain) (good_fields p none 7) refl
            (fields-plain python lowers p plain)
            (good_fields-problems python p valid plain networks none 7 refl)
        ∙ ap ok (good_fields-parsed python p valid plain networks none 7)
    from (some key) same =
        ap (parse_scan python)
          (sections-shared python lowers p plain key (plain.preshared_key key same))
        ∙ parse_scan-clean python (shared_scan python lowers p plain key)
            (good_fields p (some (key, 7)) 8) refl
            (fields-shared python lowers p plain key (plain.preshared_key key same))
            (good_fields-problems python p valid plain networks (some (key, 7)) 8
              (rw (valid.preshared_key key same) refl))
        ∙ ap ok (good_fields-parsed python p valid plain networks (some (key, 7)) 8)
