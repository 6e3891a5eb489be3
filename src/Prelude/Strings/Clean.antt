-- ===== src/Prelude/Strings/Clean.antt =====
-- About lines and the space around them.
use Prim.Native.Nat.{ℕ, ◌<◌}
use mathlib.Core.Path.{◌≡◌, refl}
use mathlib.Core.Logic.{◌≢◌}
use mathlib.Core.Bool.{false, ◌||◌}
use mathlib.Core.List.{[], ◌∷◌, ◌++◌}
use native.Mathlib.Omega.{arith}
use anyhop.Prelude.Tests.{Text, ◌==◌, nat_eq, list_eq}
use anyhop.Prelude.Lists.{All, All-append}
use anyhop.Prelude.Decimal.{show}
use anyhop.Prelude.Decimal.Digits.{IsDigit, show-IsDigit, show-ne}
use anyhop.Prelude.Strings.{
  is_space, is_break, glue, split_loop, strip_left, strip_right, has_char, split_first, split_last,
}

-- No line boundary.
abbrev pub IsOneLine : Text → Type 0
IsOneLine text = All (λ c. is_break c ≡ false) text

-- The first character is no space.
abbrev pub IsFlush : Text → Type 0
IsFlush [] = ⊥
IsFlush (c ∷ text) = is_space c ≡ false

pub strip_left-flush : (text : Text) → IsFlush text → strip_left text ≡ text
unfolding strip_left
strip_left-flush [] never = elim never [ ]
strip_left-flush (c ∷ text) out = rw (strip_left, out) refl

-- A text on one line that is not empty, without space at its ends.
pub record IsClean (text : Text) : Type 0 where
  pub filled : text ≢ []
  pub left : IsFlush text
  pub right : strip_right text ≡ text
  pub one_line : IsOneLine text

pub append-ne : (xs text : Text) → text ≢ [] → xs ++ text ≢ []
append-ne [] text ne e = ne e
append-ne (x ∷ xs) text ne e = cc

pub strip_right-append :
    (xs text : Text) → text ≢ [] → strip_right text ≡ text → strip_right (xs ++ text) ≡ xs ++ text
unfolding strip_right
strip_right-append [] text ne e = e
strip_right-append (x ∷ xs) text ne e =
    ground (arith, strip_right-append xs text ne e, append-ne xs text ne)

pub split_loop-line :
    (line rest : Text)
    → IsOneLine line
    → split_loop false (line ++ 10 ∷ rest) ≡ line ∷ split_loop false rest
unfolding split_loop glue is_break nat_eq
split_loop-line [] rest one = refl
split_loop-line (c ∷ line) rest (here, later) =
    let other : (c == 13) ≡ false = ground (arith, here) in
    rw (other, here, split_loop-line line rest later) refl

pub has_char-append :
    (x : ℕ) (xs ys : Text) → has_char x (xs ++ ys) ≡ (has_char x xs || has_char x ys)
unfolding has_char
has_char-append x [] ys = refl
has_char-append x (c ∷ xs) ys = ground (arith, has_char-append x xs ys)

-- The first separator is the one behind a text that has none.
pub split_first-append :
    (x : ℕ) (xs ys : Text) → has_char x xs ≡ false → split_first x (xs ++ x ∷ ys) ≡ (xs, ys)
unfolding split_first has_char
split_first-append x [] ys free = ground arith
split_first-append x (c ∷ xs) ys free = ground (arith, free, split_first-append x xs ys)

-- The last separator is the one before a text that has none.
pub split_last-append :
    (x : ℕ) (xs ys : Text) → has_char x ys ≡ false → split_last x (xs ++ x ∷ ys) ≡ (xs, ys)
unfolding split_last has_char
split_last-append x [] ys free = ground (arith, free)
split_last-append x (c ∷ xs) ys free =
    ground (arith, free, has_char-append x xs (x ∷ ys), split_last-append x xs ys free)

-- No space at all.
abbrev pub IsDense : Text → Type 0
IsDense text = All (λ c. is_space c ≡ false) text

dense-IsFlush : (text : Text) → text ≢ [] → IsDense text → IsFlush text
dense-IsFlush [] ne d = ne refl
dense-IsFlush (c ∷ text) ne (here, later) = here

strip_right-dense : (text : Text) → IsDense text → strip_right text ≡ text
unfolding strip_right
strip_right-dense [] d = refl
strip_right-dense (c ∷ text) (here, later) =
    rw (strip_right, here, strip_right-dense text later) refl

dense-IsOneLine : (text : Text) → IsDense text → IsOneLine text
unfolding is_break is_space
dense-IsOneLine [] d = tt
dense-IsOneLine (c ∷ text) (here, later) = (ground (arith, here), dense-IsOneLine text later)

pub dense-IsClean : (text : Text) → text ≢ [] → IsDense text → IsClean text
dense-IsClean text ne d = record {
  filled = ne;
  left = dense-IsFlush text ne d;
  right = strip_right-dense text d;
  one_line = dense-IsOneLine text d;
}

digits-IsDense : (text : Text) → All IsDigit text → IsDense text
unfolding is_space
digits-IsDense [] d = tt
digits-IsDense (c ∷ text) ((low, high), later) =
    (ground (arith, low, high), digits-IsDense text later)

pub show-IsClean : (n : ℕ) → IsClean (show n)
show-IsClean n = dense-IsClean (show n) (show-ne n) (digits-IsDense (show n) (show-IsDigit n))

digits-free : (x : ℕ) (text : Text) → 57 < x → All IsDigit text → has_char x text ≡ false
unfolding has_char
digits-free x [] above d = refl
digits-free x (c ∷ text) above ((low, high), later) =
    ground (arith, above, low, high, digits-free x text above later)

pub show-free : (x n : ℕ) → 57 < x → has_char x (show n) ≡ false
show-free x n above = digits-free x (show n) above (show-IsDigit n)

IsFlush-append : (xs ys : Text) → IsFlush xs → IsFlush (xs ++ ys)
IsFlush-append [] ys never = elim never [ ]
IsFlush-append (c ∷ xs) ys out = out

-- Two clean texts with a line between them.
pub IsClean-append :
    (xs middle ys : Text)
    → IsClean xs
    → IsOneLine middle
    → IsClean ys
    → IsClean (xs ++ (middle ++ ys))
IsClean-append xs middle ys first one last = record {
  filled = append-ne xs (middle ++ ys) (append-ne middle ys last.filled);
  left = IsFlush-append xs (middle ++ ys) first.left;
  right =
      strip_right-append xs (middle ++ ys) (append-ne middle ys last.filled)
        (strip_right-append middle ys last.filled last.right);
  one_line =
      All-append (λ c. is_break c ≡ false) xs (middle ++ ys) first.one_line
        (All-append (λ c. is_break c ≡ false) middle ys one last.one_line);
}
