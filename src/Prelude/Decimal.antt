-- ===== src/Prelude/Decimal.antt =====
-- `str(n)`, and `text.isdigit()` with `int(text)`, over ASCII digits.
pub mod Digits
use Prim.Native.Nat.{ℕ, zero, suc, ◌+◌, ◌-◌, ◌*◌, ◌/◌, ◌%◌, ◌<◌}
use mathlib.Core.Path.{◌≡◌, refl}
use mathlib.Core.Logic.{inl, inr}
use mathlib.Core.Bool.{Bool, ◌&&◌}
use mathlib.Core.Option.{Option, none, some}
use mathlib.Core.List.{[], ◌∷◌, ◌++◌}
use native.Mathlib.Omega.{arith}
use anyhop.Prelude.Tests.{ltb, leb, if◌then◌else◌, Text, Bool-cases}

show_loop : ℕ → ℕ → Text
show_loop zero n = []
show_loop (suc fuel) n =
    let more = show_loop fuel (n / 10) ++ (b'0' + n % 10) ∷ [] in
    if ltb n 10 then (b'0' + n) ∷ [] else more

-- Each round divides by ten, so one more round than the number is enough.
unfoldable pub show : ℕ → Text
unfolding show_loop
show n = show_loop (suc n) n

is_digit : ℕ → Bool
is_digit c = leb b'0' c && leb c b'9'

read_loop : Text → ℕ → Option ℕ
read_loop [] n = some n
read_loop (c ∷ text) n = if is_digit c then read_loop text (n * 10 + (c - b'0')) else none

-- none where `isdigit` is false, also for the empty text.
unfoldable pub read : Text → Option ℕ
unfolding read_loop is_digit
read [] = none
read (c ∷ text) = read_loop (c ∷ text) 0

read_loop-concat :
    (text : Text) (n m d : ℕ)
    → d < 10
    → read_loop text n ≡ some m
    → read_loop (text ++ (b'0' + d) ∷ []) n ≡ some (m * 10 + d)
unfolding read_loop is_digit
read_loop-concat [] n m d h e = ground (arith, e)
read_loop-concat (c ∷ text) n m d h e =
    ground (arith, e, read_loop-concat text (n * 10 + (c - b'0')) m d h)

read_loop-show_loop : (fuel n : ℕ) → n < fuel → read_loop (show_loop fuel n) 0 ≡ some n
unfolding show_loop read_loop is_digit
read_loop-show_loop zero n h = elim h [ ]
read_loop-show_loop (suc fuel) n h = elim (Bool-cases (ltb n 10)) [
  | inl small ↦ ground (arith, small)
  | inr large ↦ ground (
    arith,
    large,
    read_loop-concat (show_loop fuel (n / 10)) 0 (n / 10) (n % 10),
    read_loop-show_loop fuel (n / 10),
  )
]

show_loop-cons : (fuel n : ℕ) → (c : ℕ) × (text : Text) × (show_loop (suc fuel) n ≡ c ∷ text)
unfolding show_loop
show_loop-cons fuel n = elim (Bool-cases (ltb n 10)) [
  | inl small ↦ (b'0' + n, [], ground (arith, small))
  | inr large ↦ go (show_loop fuel (n / 10)) refl
]
  where
    go :
        (t : Text)
        → show_loop fuel (n / 10) ≡ t
        → (c : ℕ) × (text : Text) × (show_loop (suc fuel) n ≡ c ∷ text)
    go [] e = elim (Bool-cases (ltb n 10)) [
      | inl small ↦ (b'0' + n, [], ground (arith, small))
      | inr large ↦ (b'0' + n % 10, [], ground (arith, large, e))
    ]
    go (c ∷ t) e = elim (Bool-cases (ltb n 10)) [
      | inl small ↦ (b'0' + n, [], ground (arith, small))
      | inr large ↦ (c, t ++ (b'0' + n % 10) ∷ [], ground (arith, large, e))
    ]

pub read-show : (n : ℕ) → read (show n) ≡ some n
unfolding read show
read-show n =
    let (c, text, e) = show_loop-cons n n in ground (arith, e, read_loop-show_loop (suc n) n)

pub show-injective : (m n : ℕ) → show m ≡ show n → m ≡ n
show-injective m n h = cc (read-show m, read-show n, h)
