-- ===== src/Wgconf/Canonical.antt =====
-- `canonical` of wgconf.py, and `mask` of credentials.py.
pub mod Lines
pub mod Scanned
pub mod Checked
pub mod RoundTrip
use anyhop.Prelude.{
  ℕ, zero, suc, ◌-◌, Bool, true, false, Option, none, some, List, [], ◌∷◌, ◌++◌, Text, codes, leb,
  if◌then◌else◌,
}
use anyhop.Prelude.Decimal.{show}
use anyhop.Prelude.Lists.{length, take, drop}
use anyhop.Prelude.Strings.{join}
use anyhop.Wgconf.Fields.{Parsed}

unfoldable pub stars : ℕ → Text
stars zero = []
stars (suc n) = b'*' ∷ stars n

-- `mask` with four characters on both ends
unfoldable pub mask : Text → Text
mask value =
    if leb (length value) 8
    then stars (length value)
    else take 4 value ++ (stars (length value - 8) ++ drop (length value - 4) value)

unfoldable pub shown : Bool → Text → Text
shown masked secret = if masked then mask secret else secret

unfoldable pub preshared_line : Bool → Option Text → List Text
preshared_line masked none = []
preshared_line masked (some key) = (codes "PresharedKey = " ++ shown masked key) ∷ []

unfoldable pub canonical_lines : Bool → Parsed → List Text
canonical_lines masked parsed =
    codes "[Interface]"
    ∷ (codes "PrivateKey = " ++ shown masked parsed.private_key)
    ∷ (codes "Address = " ++ join (codes ", ") parsed.address)
    ∷ []
    ∷ codes "[Peer]"
    ∷ (codes "PublicKey = " ++ parsed.public_key)
    ∷ (preshared_line masked parsed.preshared_key
        ++ (codes "Endpoint = " ++ (parsed.endpoint_host ++ (b':' ∷ show parsed.endpoint_port)))
          ∷ (codes "AllowedIPs = " ++ join (codes ", ") parsed.allowed_ips)
          ∷ (codes "PersistentKeepalive = " ++ show parsed.keepalive)
          ∷ [])

unfoldable pub canonical : Bool → Parsed → Text
canonical masked parsed = join (10 ∷ []) (canonical_lines masked parsed) ++ 10 ∷ []
