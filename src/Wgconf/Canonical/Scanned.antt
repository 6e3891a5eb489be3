-- ===== src/Wgconf/Canonical/Scanned.antt =====
-- About what `_sections` of wgconf.py makes of the lines of a canonical configuration.
use anyhop.Prelude.{
  ℕ, ◌+◌, ◌≡◌, refl, ap, ◌∙◌, none, List, [], ◌∷◌, ◌++◌, Text, codes, list_eq, nat_eq,
}
use anyhop.Prelude.Dict.{lookup, assign}
use anyhop.Prelude.Strings.{is_space, strip_left, strip_right, strip, has_char}
use anyhop.Prelude.Strings.Clean.{IsClean}
use anyhop.Wgconf.{
  Python, Entries, interface, peer, Scan, start_scan, ends_with, drop_last, heading, section_of,
  open_section, set_key, add_key, scan_heading, scan_stripped, scan_line, scan_lines,
}
use anyhop.Wgconf.Canonical.Lines.{IsKey, scan_line-key}

-- `str.lower` on the words of the format.
pub record Lowers (python : Python) : Type 0 where
  pub interface : python.lower (codes "Interface") ≡ codes "interface"
  pub peer : python.lower (codes "Peer") ≡ codes "peer"
  pub private_key : python.lower (codes "PrivateKey") ≡ codes "privatekey"
  pub address : python.lower (codes "Address") ≡ codes "address"
  pub public_key : python.lower (codes "PublicKey") ≡ codes "publickey"
  pub preshared_key : python.lower (codes "PresharedKey") ≡ codes "presharedkey"
  pub endpoint : python.lower (codes "Endpoint") ≡ codes "endpoint"
  pub allowed_ips : python.lower (codes "AllowedIPs") ≡ codes "allowedips"
  pub keepalive : python.lower (codes "PersistentKeepalive") ≡ codes "persistentkeepalive"

-- A scan without problems, in the first section and in the second.
abbrev pub in_interface : Entries → Scan
in_interface keys = record {
  section = interface;
  interface_keys = keys;
  peer_keys = [];
  errors = [];
  seen_sections = (codes "interface", 1) ∷ [];
}

abbrev pub in_peer : Entries → Entries → Scan
in_peer keys peer_keys = record {
  section = peer;
  interface_keys = keys;
  peer_keys = peer_keys;
  errors = [];
  seen_sections = (codes "interface", 1) ∷ (codes "peer", 5) ∷ [];
}

module _ (python : Python) (lowers : Lowers python) where
  scan_lines-cons :
      (lineno : ℕ) (line : Text) (lines : List Text) (scan next last : Scan)
      → scan_line python lineno line scan ≡ next
      → scan_lines python (lineno + 1) lines next ≡ last
      → scan_lines python lineno (line ∷ lines) scan ≡ last
  unfolding scan_lines
  scan_lines-cons lineno line lines scan next last first rest =
      ap (scan_lines python (lineno + 1) lines) first ∙ rest

  scan_lines-nil : (lineno : ℕ) (scan : Scan) → scan_lines python lineno [] scan ≡ scan
  unfolding scan_lines
  scan_lines-nil lineno scan = refl

  open_interface : scan_line python 1 (codes "[Interface]") start_scan ≡ in_interface []
  unfolding scan_line strip strip_left strip_right is_space scan_stripped heading ends_with
      drop_last nat_eq list_eq scan_heading open_section section_of lookup assign
  open_interface = ap (λ name. open_section 1 name start_scan) lowers.interface

  open_peer :
      (keys : Entries) → scan_line python 5 (codes "[Peer]") (in_interface keys) ≡ in_peer keys []
  unfolding scan_line strip strip_left strip_right is_space scan_stripped heading ends_with
      drop_last nat_eq list_eq scan_heading open_section section_of lookup assign
  open_peer keys = ap (λ name. open_section 5 name (in_interface keys)) lowers.peer

  add_interface :
      (lineno : ℕ) (key value : Text) (keys : Entries)
      → lookup key keys ≡ none
      → add_key lineno key value (in_interface keys)
        ≡ in_interface (assign key (value, lineno) keys)
  unfolding add_key set_key
  add_interface lineno key value keys absent = rw (add_key, set_key, absent) refl

  add_peer :
      (lineno : ℕ) (key value : Text) (keys peer_keys : Entries)
      → lookup key peer_keys ≡ none
      → add_key lineno key value (in_peer keys peer_keys)
        ≡ in_peer keys (assign key (value, lineno) peer_keys)
  unfolding add_key set_key
  add_peer lineno key value keys peer_keys absent = rw (add_key, set_key, absent) refl

  scan_interface :
      (c : ℕ) (key name value : Text) (lineno : ℕ) (keys : Entries)
      → IsKey c key
      → python.lower (strip (c ∷ key)) ≡ name
      → lookup name keys ≡ none
      → IsClean value
      → scan_line python lineno ((c ∷ key) ++ b'=' ∷ 32 ∷ value) (in_interface keys)
        ≡ in_interface (assign name (value, lineno) keys)
  scan_interface c key name value lineno keys is low absent clean =
      scan_line-key python c key value lineno (in_interface keys) is clean
      ∙ ap (λ n. add_key lineno n value (in_interface keys)) low
      ∙ add_interface lineno name value keys absent

  scan_peer :
      (c : ℕ) (key name value : Text) (lineno : ℕ) (keys peer_keys : Entries)
      → IsKey c key
      → python.lower (strip (c ∷ key)) ≡ name
      → lookup name peer_keys ≡ none
      → IsClean value
      → scan_line python lineno ((c ∷ key) ++ b'=' ∷ 32 ∷ value) (in_peer keys peer_keys)
        ≡ in_peer keys (assign name (value, lineno) peer_keys)
  scan_peer c key name value lineno keys peer_keys is low absent clean =
      scan_line-key python c key value lineno (in_peer keys peer_keys) is clean
      ∙ ap (λ n. add_key lineno n value (in_peer keys peer_keys)) low
      ∙ add_peer lineno name value keys peer_keys absent

  scan_blank : (lineno : ℕ) (scan : Scan) → scan_line python lineno [] scan ≡ scan
  unfolding scan_line strip strip_left strip_right scan_stripped
  scan_blank lineno scan = refl

  module _ (private_key address public_key endpoint allowed_ips keepalive : Text)
      (a : IsClean private_key) (b : IsClean address) (c : IsClean public_key)
      (d : IsClean endpoint) (e : IsClean allowed_ips) (f : IsClean keepalive) where
    abbrev pub interface_keys : Entries
    interface_keys = (codes "privatekey", (private_key, 2)) ∷ (codes "address", (address, 3)) ∷ []

    -- The keys of the peer without and with a preshared key.
    abbrev pub plain_keys : Entries
    plain_keys =
        (codes "publickey", (public_key, 6))
        ∷ (codes "endpoint", (endpoint, 7))
        ∷ (codes "allowedips", (allowed_ips, 8))
        ∷ (codes "persistentkeepalive", (keepalive, 9))
        ∷ []

    abbrev pub shared_keys : Text → Entries
    shared_keys preshared_key =
        (codes "publickey", (public_key, 6))
        ∷ (codes "presharedkey", (preshared_key, 7))
        ∷ (codes "endpoint", (endpoint, 8))
        ∷ (codes "allowedips", (allowed_ips, 9))
        ∷ (codes "persistentkeepalive", (keepalive, 10))
        ∷ []

    abbrev pub first_lines : List Text → List Text
    first_lines rest =
        codes "[Interface]"
        ∷ (codes "PrivateKey = " ++ private_key)
        ∷ (codes "Address = " ++ address)
        ∷ []
        ∷ codes "[Peer]"
        ∷ (codes "PublicKey = " ++ public_key)
        ∷ rest

    abbrev pub last_lines : List Text
    last_lines =
        (codes "Endpoint = " ++ endpoint)
        ∷ (codes "AllowedIPs = " ++ allowed_ips)
        ∷ (codes "PersistentKeepalive = " ++ keepalive)
        ∷ []

    scan_first :
        (rest : List Text) (last : Scan)
        → scan_lines python 7 rest
            (in_peer interface_keys ((codes "publickey", (public_key, 6)) ∷ []))
          ≡ last
        → scan_lines python 1 (first_lines rest) start_scan ≡ last
    unfolding lookup assign has_char is_space nat_eq list_eq strip strip_left strip_right
    scan_first rest last more = scan_lines-cons 1 _ _ _ _ last open_interface (
        scan_lines-cons 2 _ _ _ _ last
          (scan_interface b'P' (codes "rivateKey ") (codes "privatekey") private_key 2 []
            (record { not_space = refl; not_heading = refl; not_comment = refl; no_sign = refl })
            lowers.private_key refl a)
          (scan_lines-cons 3 _ _ _ _ last
            (scan_interface b'A' (codes "ddress ") (codes "address") address 3 _
              (record { not_space = refl; not_heading = refl; not_comment = refl; no_sign = refl })
              lowers.address refl b)
            (scan_lines-cons 4 _ _ _ _ last (scan_blank 4 _) (
              scan_lines-cons 5 _ _ _ _ last (open_peer interface_keys) (
                scan_lines-cons 6 _ _ _ _ last
                  (scan_peer b'P' (codes "ublicKey ") (codes "publickey") public_key 6
                    interface_keys []
                    (record {
                      not_space = refl;
                      not_heading = refl;
                      not_comment = refl;
                      no_sign = refl;
                    })
                    lowers.public_key refl c)
                  more)))))

    scan_last :
        (lineno : ℕ) (before : Entries) (last : Scan)
        → lookup (codes "endpoint") before ≡ none
        → lookup (codes "allowedips") (assign (codes "endpoint") (endpoint, lineno) before) ≡ none
        → lookup (codes "persistentkeepalive") (
            assign
              (codes "allowedips")
              (allowed_ips, lineno + 1)
              (assign (codes "endpoint") (endpoint, lineno) before))
          ≡ none
        → in_peer interface_keys (
            assign
              (codes "persistentkeepalive")
              (keepalive, lineno + 1 + 1)
              (assign
                (codes "allowedips")
                (allowed_ips, lineno + 1)
                (assign (codes "endpoint") (endpoint, lineno) before)))
          ≡ last
        → scan_lines python lineno last_lines (in_peer interface_keys before) ≡ last
    unfolding has_char is_space nat_eq list_eq strip strip_left strip_right
    scan_last lineno before last no_endpoint no_allowed no_keepalive end =
        scan_lines-cons lineno _ _ _ _ last
          (scan_peer b'E' (codes "ndpoint ") (codes "endpoint") endpoint lineno interface_keys
            before
            (record { not_space = refl; not_heading = refl; not_comment = refl; no_sign = refl })
            lowers.endpoint no_endpoint d)
          (scan_lines-cons (lineno + 1) _ _ _ _ last
            (scan_peer b'A' (codes "llowedIPs ") (codes "allowedips") allowed_ips (lineno + 1)
              interface_keys _
              (record { not_space = refl; not_heading = refl; not_comment = refl; no_sign = refl })
              lowers.allowed_ips no_allowed e)
            (scan_lines-cons (lineno + 1 + 1) _ _ _ _ last
              (scan_peer b'P' (codes "ersistentKeepalive ") (codes "persistentkeepalive") keepalive
                (lineno + 1 + 1) interface_keys _
                (record {
                  not_space = refl;
                  not_heading = refl;
                  not_comment = refl;
                  no_sign = refl;
                })
                lowers.keepalive no_keepalive f)
              (scan_lines-nil _ _ ∙ end)))

    pub scan-plain :
        scan_lines python 1 (first_lines last_lines) start_scan ≡ in_peer interface_keys plain_keys
    unfolding lookup assign nat_eq list_eq
    scan-plain = scan_first last_lines (in_peer interface_keys plain_keys) (
        scan_last 7 ((codes "publickey", (public_key, 6)) ∷ []) (in_peer interface_keys plain_keys)
          refl refl refl refl)

    pub scan-shared :
        (preshared_key : Text)
        → IsClean preshared_key
        → scan_lines python 1
            (first_lines ((codes "PresharedKey = " ++ preshared_key) ∷ last_lines))
            start_scan
          ≡ in_peer interface_keys (shared_keys preshared_key)
    unfolding lookup assign has_char is_space nat_eq list_eq strip strip_left strip_right
    scan-shared preshared_key g =
        let last = in_peer interface_keys (shared_keys preshared_key) in
        scan_first ((codes "PresharedKey = " ++ preshared_key) ∷ last_lines) last (
          scan_lines-cons 7 _ _ _ _ last
            (scan_peer b'P' (codes "resharedKey ") (codes "presharedkey") preshared_key 7
              interface_keys _
              (record { not_space = refl; not_heading = refl; not_comment = refl; no_sign = refl })
              lowers.preshared_key refl g)
            (scan_last 8
              ((codes "publickey", (public_key, 6))
                ∷ (codes "presharedkey", (preshared_key, 7))
                ∷ [])
              last refl refl refl refl))
