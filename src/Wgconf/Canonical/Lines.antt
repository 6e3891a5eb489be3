-- ===== src/Wgconf/Canonical/Lines.antt =====
-- About the lines of a canonical configuration, as `_sections` of wgconf.py reads them.
use anyhop.Prelude.{
  ℕ, ◌≡◌, refl, sym, ap, ◌∙◌, Bool, true, false, ◌||◌, [], ◌∷◌, ◌++◌, append_assoc, arith, Text,
  ◌==◌, list_eq, nat_eq,
}
use anyhop.Prelude.Lists.{All-append}
use anyhop.Prelude.Strings.{
  is_space, is_break, strip_left, strip_right, strip, has_char, split_first,
}
use anyhop.Prelude.Strings.Clean.{
  IsOneLine, IsClean, strip_right-append, split_first-append, has_char-append,
}
use anyhop.Prelude.Strings.Joined.{strip-spaced}
use anyhop.Wgconf.{Python, Scan, heading, add_key, scan_key, scan_heading, scan_stripped, scan_line}

-- A key as it is written before the sign, with a space behind it.
pub record IsKey (c : ℕ) (key : Text) : Type 0 where
  pub not_space : is_space c ≡ false
  pub not_heading : (c == b'[') ≡ false
  pub not_comment : (c == b'#') ≡ false
  pub no_sign : has_char b'=' (c ∷ key) ≡ false

line_of_key : (c : ℕ) (key value : Text) → Text
line_of_key c key value = (c ∷ key) ++ b'=' ∷ 32 ∷ value

strip-line :
    (c : ℕ) (key value : Text)
    → is_space c ≡ false
    → IsClean value
    → strip (line_of_key c key value) ≡ line_of_key c key value
unfolding line_of_key strip strip_left
strip-line c key value out clean =
    let left : strip_left ((c ∷ key) ++ b'=' ∷ 32 ∷ value) ≡ (c ∷ key) ++ b'=' ∷ 32 ∷ value =
      rw (strip_left, out) refl in
    ap strip_right left
    ∙ ap strip_right (sym (append_assoc (c ∷ key) (b'=' ∷ 32 ∷ []) value))
    ∙ strip_right-append ((c ∷ key) ++ b'=' ∷ 32 ∷ []) value clean.filled clean.right
    ∙ append_assoc (c ∷ key) (b'=' ∷ 32 ∷ []) value

sign_here : (x : ℕ) (text : Text) → has_char x (x ∷ text) ≡ true
unfolding has_char
sign_here x text = ground arith

scan_stripped-key :
    (python : Python) (c : ℕ) (text : Text) (lineno : ℕ) (scan : Scan)
    → (c == b'#') ≡ false
    → (c == b'[') ≡ false
    → scan_stripped python (c ∷ text) lineno scan ≡ scan_key python lineno (c ∷ text) scan
unfolding scan_stripped heading scan_heading
scan_stripped-key python c text lineno scan comment head =
    rw (scan_stripped, comment) (rw (heading, head) refl)

scan_key-cut :
    (python : Python) (line key value : Text) (lineno : ℕ) (scan : Scan)
    → has_char b'=' line ≡ true
    → split_first b'=' line ≡ (key, value)
    → scan_key python lineno line scan
      ≡ add_key lineno (python.lower (strip key)) (strip value) scan
unfolding scan_key
scan_key-cut python line key value lineno scan sign cut = rw (scan_key, sign, cut) refl

pub scan_line-key :
    (python : Python) (c : ℕ) (key value : Text) (lineno : ℕ) (scan : Scan)
    → IsKey c key
    → IsClean value
    → scan_line python lineno ((c ∷ key) ++ b'=' ∷ 32 ∷ value) scan
      ≡ add_key lineno (python.lower (strip (c ∷ key))) value scan
unfolding line_of_key scan_line
scan_line-key python c key value lineno scan is clean =
    let line = (c ∷ key) ++ b'=' ∷ 32 ∷ value in
    let sign : has_char b'=' line ≡ true =
      has_char-append b'=' (c ∷ key) (b'=' ∷ 32 ∷ value)
      ∙ rw (is.no_sign) (sign_here b'=' (32 ∷ value)) in
    ap (λ l. scan_stripped python l lineno scan) (strip-line c key value is.not_space clean)
    ∙ scan_stripped-key python c (key ++ b'=' ∷ 32 ∷ value) lineno scan is.not_comment
        is.not_heading
    ∙ scan_key-cut python line (c ∷ key) (32 ∷ value) lineno scan sign
        (split_first-append b'=' (c ∷ key) (32 ∷ value) is.no_sign)
    ∙ ap (λ v. add_key lineno (python.lower (strip (c ∷ key))) v scan) (strip-spaced value clean)

IsOneLine-append : (xs ys : Text) → IsOneLine xs → IsOneLine ys → IsOneLine (xs ++ ys)
IsOneLine-append xs ys left right = All-append (λ c. is_break c ≡ false) xs ys left right

unfoldable pub has_break : Text → Bool
has_break [] = false
has_break (c ∷ text) = is_break c || has_break text

pub IsOneLine-tested : (text : Text) → has_break text ≡ false → IsOneLine text
unfolding has_break
IsOneLine-tested [] free = tt
IsOneLine-tested (c ∷ text) free =
    (ground (arith, free), IsOneLine-tested text (ground (arith, free)))

pub IsOneLine-prefixed :
    (prefix value : Text) → has_break prefix ≡ false → IsClean value → IsOneLine (prefix ++ value)
IsOneLine-prefixed prefix value free clean =
    IsOneLine-append prefix value (IsOneLine-tested prefix free) clean.one_line
