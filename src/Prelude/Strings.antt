-- ===== src/Prelude/Strings.antt =====
-- Methods of Python's `str` on texts.
pub mod Clean
pub mod Joined
use Prim.Native.Nat.{ℕ}
use mathlib.Core.Bool.{Bool, true, false, not, ◌&&◌, ◌||◌}
use mathlib.Core.Option.{Option, none, some}
use mathlib.Core.List.{List, [], ◌∷◌, ◌++◌, reverse}
use anyhop.Prelude.Tests.{ltb, leb, if◌then◌else◌, Text, ◌==◌, nat_eq, list_eq}

-- The characters of `str.isspace`.
unfoldable pub is_space : ℕ → Bool
is_space c =
    (leb 9 c && leb c 13)
    || (leb 28 c && leb c 32)
    || c == 133
    || c == 160
    || c == 5760
    || (leb 8192 c && leb c 8202)
    || c == 8232
    || c == 8233
    || c == 8239
    || c == 8287
    || c == 12288

-- The line boundaries of `str.splitlines`.
unfoldable pub is_break : ℕ → Bool
is_break c = (leb 10 c && leb c 13) || (leb 28 c && leb c 30) || c == 133 || c == 8232 || c == 8233

-- A character before the first line.
unfoldable pub glue : ℕ → List Text → List Text
glue c [] = (c ∷ []) ∷ []
glue c (line ∷ lines) = (c ∷ line) ∷ lines

-- The flag says that a carriage return came before, so that a line feed ends no second line.
unfoldable pub split_loop : Bool → Text → List Text
split_loop returned [] = []
split_loop returned (c ∷ text) =
    let rest = split_loop (c == 13) text in
    if returned && c == 10 then rest else if is_break c then [] ∷ rest else glue c rest

-- `text.splitlines()`
unfoldable pub split_lines : Text → List Text
split_lines text = split_loop false text

unfoldable pub strip_left : Text → Text
strip_left [] = []
strip_left (c ∷ text) = let rest = strip_left text in if is_space c then rest else c ∷ text

-- A text without the space at its end.
unfoldable pub strip_right : Text → Text
strip_right [] = []
strip_right (c ∷ text) =
    let rest = strip_right text in if is_space c && rest == [] then [] else c ∷ rest

-- `text.strip()`
unfoldable pub strip : Text → Text
strip text = strip_right (strip_left text)

unfoldable pub has_char : ℕ → Text → Bool
has_char x [] = false
has_char x (c ∷ text) = c == x || has_char x text

-- `text.split(x, 1)`, whose second part is empty where there is no `x`.
unfoldable pub split_first : ℕ → Text → Text × Text
split_first x [] = ([], [])
split_first x (c ∷ text) =
    let (first, second) = split_first x text in if c == x then ([], text) else (c ∷ first, second)

-- `text.rpartition(x)` without `x`: the first part is empty where there is no `x`.
unfoldable pub split_last : ℕ → Text → Text × Text
split_last x [] = ([], [])
split_last x (c ∷ text) =
    let (first, second) = split_last x text in
    if has_char x text then (c ∷ first, second) else if c == x then ([], text) else ([], c ∷ text)

-- `text.split(x)`
unfoldable pub split_all : ℕ → Text → List Text
split_all x [] = [] ∷ []
split_all x (c ∷ text) = let rest = split_all x text in if c == x then [] ∷ rest else glue c rest

-- `", ".join(texts)` for any separator
unfoldable pub join : Text → List Text → Text
join separator [] = []
join separator (text ∷ []) = text
join separator (text ∷ more ∷ texts) = text ++ (separator ++ join separator (more ∷ texts))
