-- ===== src/Tests/WgconfTests.antt =====
-- The witnesses about WireGuard configurations.
use anyhop.Wgconf.{drop_last, ends_with, heading, Problem, Python}
use anyhop.Prelude.Strings.{
  strip_left, strip_right, glue, split_loop, is_space, is_break, split_lines, strip, has_char,
}
use anyhop.Wgconf.Fields.{valid_host, is_wg_key, Parsed, parse, or_default}
use mathlib.Core.Path.{subst}
use anyhop.Prelude.{
  ◌+◌, ◌≡◌, inr, refl, Bool, true, false, some, List, [], ◌∷◌, ◌++◌, arith, Text, codes, leb, ◌&&◌,
  ◌||◌, nat_eq, list_eq, if◌then◌else◌,
}
use anyhop.Prelude.Strings.Clean.{IsClean, IsDense, dense-IsClean}
use anyhop.Result.{err, ok}
use anyhop.Wgconf.Fields.Valid.{IsValid, parse-IsValid}
use anyhop.Wgconf.Sections.{parse-repeated}
use anyhop.Wgconf.Canonical.{canonical}
use anyhop.Wgconf.Canonical.Scanned.{Lowers}
use anyhop.Wgconf.Canonical.Checked.{IsWritable}
use anyhop.Wgconf.Canonical.RoundTrip.{parse-canonical}

lower : Text → Text
lower [] = []
lower (c ∷ text) = (if leb b'A' c && leb c b'Z' then c + 32 else c) ∷ lower text

abbrev python : Python
python = record {
  lower = lower;
  is_address = λ text. has_char b'.' text;
  is_interface = λ text. has_char b'/' text;
  is_network = λ text. has_char b'/' text;
  decode = λ text. some text;
  encode = λ bytes. bytes;
}

has_space : Text → Bool
has_space [] = false
has_space (c ∷ text) = is_space c || has_space text

dense : (text : Text) → has_space text ≡ false → IsDense text
unfolding has_space
dense [] free = tt
dense (c ∷ text) free = (ground (arith, free), dense text (ground (arith, free)))

abbrev key : Text
key = codes "abcdefghijklmnopqrstuvwxyz012345"

abbrev parsed : Parsed
parsed = record {
  private_key = key;
  address = codes "10.5.0.2/32" ∷ codes "fd00::2/128" ∷ [];
  public_key = key;
  endpoint_host = codes "203.0.113.7";
  endpoint_port = 51820;
  preshared_key = some key;
  allowed_ips = codes "10.0.0.0/8" ∷ [];
  keepalive = 25;
}

lowers : Lowers python
unfolding lower
lowers = record {
  interface = refl;
  peer = refl;
  private_key = refl;
  address = refl;
  public_key = refl;
  preshared_key = refl;
  endpoint = refl;
  allowed_ips = refl;
  keepalive = refl;
}

key-IsClean : IsClean key
unfolding has_space is_space nat_eq
key-IsClean = dense-IsClean key (λ e. cc) (dense key refl)

parsed-IsValid : IsValid python parsed
unfolding is_wg_key nat_eq list_eq has_char valid_host
parsed-IsValid = record {
  private_key = refl;
  public_key = refl;
  preshared_key =
      λ k e. let same : key ≡ k = cc in subst (λ (x : Text). is_wg_key python x ≡ true) same refl;
  address = (refl, (refl, tt));
  host = refl;
  port = (omega arith, omega arith);
  allowed_ips = inr (refl, tt);
  keepalive = omega arith;
}

parsed-IsWritable : IsWritable parsed
unfolding has_space is_space nat_eq has_char
parsed-IsWritable = record {
  private_key = key-IsClean;
  public_key = key-IsClean;
  preshared_key = λ k e. let same : key ≡ k = cc in subst IsClean same key-IsClean;
  address = (
    (λ e. cc),
    (
      (dense-IsClean (codes "10.5.0.2/32") (λ e. cc) (dense (codes "10.5.0.2/32") refl), refl),
      (
        (dense-IsClean (codes "fd00::2/128") (λ e. cc) (dense (codes "fd00::2/128") refl), refl),
        tt,
      ),
    ),
  );
  allowed_ips = (
    (λ e. cc),
    ((dense-IsClean (codes "10.0.0.0/8") (λ e. cc) (dense (codes "10.0.0.0/8") refl), refl), tt),
  );
  host = dense-IsClean (codes "203.0.113.7") (λ e. cc) (dense (codes "203.0.113.7") refl);
  no_bracket = λ c rest e. ground (arith, e);
}

parse-canonical_example : parse python (canonical false parsed) ≡ ok parsed
unfolding or_default has_char nat_eq
parse-canonical_example =
    parse-canonical python parsed lowers (refl, (refl, tt)) parsed-IsValid parsed-IsWritable

parse-IsValid_example : IsValid python parsed
unfolding or_default has_char nat_eq
parse-IsValid_example =
    parse-IsValid python (canonical false parsed) parsed
      (parse-canonical python parsed lowers (refl, (refl, tt)) parsed-IsValid parsed-IsWritable)

parse-repeated_example :
    (p : Problem) × (more : List Problem) × (parse python
        (codes "[Peer]" ++ (10 ∷ codes "[ PEER ]"))
      ≡ err (p ∷ more))
unfolding split_lines split_loop is_break nat_eq glue heading strip strip_right strip_left is_space
    ends_with drop_last lower list_eq
parse-repeated_example =
    parse-repeated python (codes "peer") (codes "[Peer]" ++ (10 ∷ codes "[ PEER ]"))
      (codes "[Peer]") (codes "[ PEER ]") [] [] [] (inr refl) refl (codes "Peer", refl, refl)
      (codes " PEER ", refl, refl)
