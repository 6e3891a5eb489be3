-- ===== src/Prelude/Strings/Joined.antt =====
-- About texts that are joined and split again.
use Prim.Native.Nat.{ℕ}
use mathlib.Core.Path.{◌≡◌, refl, sym, ap, ◌∙◌}
use mathlib.Core.Logic.{◌≢◌}
use mathlib.Core.Bool.{false, not}
use mathlib.Core.List.{List, [], ◌∷◌, ◌++◌, map, append_assoc}
use native.Mathlib.Omega.{arith}
use anyhop.Prelude.Tests.{Text, ◌==◌, nat_eq, list_eq, codes}
use anyhop.Prelude.Lists.{All, select}
use anyhop.Prelude.Strings.{
  is_space, is_break, glue, split_loop, split_lines, strip_left, strip_right, strip, has_char,
  split_all, join,
}
use anyhop.Prelude.Strings.Clean.{
  IsOneLine, IsClean, IsClean-append, strip_left-flush, split_loop-line, has_char-append,
}

-- Lines that are written one after another are read back.
pub split_lines-join :
    (line : Text) (lines : List Text)
    → All IsOneLine (line ∷ lines)
    → split_lines (join (10 ∷ []) (line ∷ lines) ++ 10 ∷ []) ≡ line ∷ lines
unfolding split_lines join split_loop
split_lines-join line [] (one, rest) = split_loop-line line [] one
split_lines-join line (next ∷ lines) (one, rest) =
    ap split_lines (append_assoc line (10 ∷ join (10 ∷ []) (next ∷ lines)) (10 ∷ []))
    ∙ split_loop-line line (join (10 ∷ []) (next ∷ lines) ++ 10 ∷ []) one
    ∙ ap (λ more. line ∷ more) (split_lines-join next lines rest)

split_all-append :
    (x : ℕ) (xs ys : Text)
    → has_char x xs ≡ false
    → split_all x (xs ++ x ∷ ys) ≡ xs ∷ split_all x ys
unfolding split_all has_char glue
split_all-append x [] ys free = ground arith
split_all-append x (c ∷ xs) ys free = ground (arith, free, split_all-append x xs ys)

split_all-none : (x : ℕ) (xs : Text) → has_char x xs ≡ false → split_all x xs ≡ xs ∷ []
unfolding split_all has_char glue
split_all-none x [] free = refl
split_all-none x (c ∷ xs) free = ground (arith, free, split_all-none x xs)

pub strip-clean : (text : Text) → IsClean text → strip text ≡ text
unfolding strip
strip-clean text clean = ap strip_right (strip_left-flush text clean.left) ∙ clean.right

pub strip-spaced : (text : Text) → IsClean text → strip (32 ∷ text) ≡ text
unfolding strip strip_left is_space
strip-spaced text clean = ap strip_right (strip_left-flush text clean.left) ∙ clean.right

pub join-ne :
    (separator text : Text) (texts : List Text) → text ≢ [] → join separator (text ∷ texts) ≢ []
unfolding join
join-ne separator [] texts ne e = ne refl
join-ne separator (c ∷ text) [] ne e = cc
join-ne separator (c ∷ text) (more ∷ texts) ne e = cc

-- The parts between commas, without space and empty ones.
abbrev pub parts : Text → List Text
parts text = select (λ (p : Text). not (p == [])) (map strip (split_all b',' text))

-- A clean text without a comma.
abbrev pub IsEntry : Text → Type 0
IsEntry text = IsClean text × (has_char b',' text ≡ false)

-- What stands before an entry: nothing, or a space.
abbrev IsMargin : Text → Type 0
IsMargin margin =
    (has_char b',' margin ≡ false) × ((text : Text) → IsClean text → strip (margin ++ text) ≡ text)

space_free : has_char b',' (32 ∷ []) ≡ false
unfolding has_char nat_eq
space_free = refl

parts-last :
    (part text : Text)
    → has_char b',' part ≡ false
    → strip part ≡ text
    → text ≢ []
    → parts part ≡ text ∷ []
unfolding select
parts-last part text free stripped ne =
    rw (split_all-none b',' part free, stripped) (ground (arith, ne))

parts-cons :
    (part text rest : Text)
    → has_char b',' part ≡ false
    → strip part ≡ text
    → text ≢ []
    → parts (part ++ b',' ∷ rest) ≡ text ∷ parts rest
unfolding select
parts-cons part text rest free stripped ne =
    rw (split_all-append b',' part rest free, stripped) (ground (arith, ne))

parts-margin :
    (margin text : Text) (texts : List Text)
    → IsMargin margin
    → All IsEntry (text ∷ texts)
    → parts (margin ++ join (codes ", ") (text ∷ texts)) ≡ text ∷ texts
unfolding join
parts-margin margin text [] (free, strips) ((clean, no_comma), rest) =
    parts-last (margin ++ text) text
      (ground (arith, has_char-append b',' margin text, free, no_comma)) (strips text clean)
      clean.filled
parts-margin margin text (next ∷ texts) (free, strips) ((clean, no_comma), rest) =
    let more = join (codes ", ") (next ∷ texts) in
    ap parts (sym (append_assoc margin text (b',' ∷ 32 ∷ more)))
    ∙ parts-cons (margin ++ text) text (32 ∷ more)
        (ground (arith, has_char-append b',' margin text, free, no_comma)) (strips text clean)
        clean.filled
    ∙ ap (λ (found : List Text). text ∷ found)
        (parts-margin (32 ∷ []) next texts (space_free, strip-spaced) rest)

-- Entries that are joined by commas are read back.
pub parts-join :
    (text : Text) (texts : List Text)
    → All IsEntry (text ∷ texts)
    → parts (join (codes ", ") (text ∷ texts)) ≡ text ∷ texts
unfolding has_char
parts-join text texts entries = parts-margin [] text texts (refl, strip-clean) entries

pub join-IsClean :
    (text : Text) (texts : List Text)
    → All IsEntry (text ∷ texts)
    → IsClean (join (codes ", ") (text ∷ texts))
unfolding join is_break
join-IsClean text [] ((clean, no_comma), rest) = clean
join-IsClean text (next ∷ texts) ((clean, no_comma), rest) =
    IsClean-append text (codes ", ") (join (codes ", ") (next ∷ texts)) clean
      (ground arith, (ground arith, tt)) (join-IsClean next texts rest)
