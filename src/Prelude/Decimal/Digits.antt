-- ===== src/Prelude/Decimal/Digits.antt =====
-- About the digits that `str(n)` gives.
use Prim.Native.Nat.{ℕ, zero, suc, ◌+◌, ◌/◌, ◌%◌, ◌≤◌}
use mathlib.Core.Logic.{◌≢◌, inl, inr}
use mathlib.Core.List.{[], ◌∷◌, ◌++◌}
use native.Mathlib.Omega.{arith}
use anyhop.Prelude.Tests.{ltb, Text, Bool-cases}
use anyhop.Prelude.Lists.{All, All-append}
use anyhop.Prelude.Decimal.{show, show_loop}

abbrev pub IsDigit : ℕ → Type 0
IsDigit c = (b'0' ≤ c) × (c ≤ b'9')

show_loop-IsDigit : (fuel n : ℕ) → All IsDigit (show_loop fuel n)
unfolding show_loop
show_loop-IsDigit zero n = tt
show_loop-IsDigit (suc fuel) n = elim (Bool-cases (ltb n 10)) [
  | inl small ↦ rw (show_loop, small) ((omega arith, ground (arith, small)), tt)
  | inr large ↦
      rw (show_loop, large)
        (All-append IsDigit (show_loop fuel (n / 10)) ((b'0' + n % 10) ∷ [])
          (show_loop-IsDigit fuel (n / 10)) ((omega arith, omega arith), tt))
]

pub show-IsDigit : (n : ℕ) → All IsDigit (show n)
unfolding show
show-IsDigit n = show_loop-IsDigit (suc n) n

concat-ne : (xs : Text) (x : ℕ) → xs ++ x ∷ [] ≢ []
concat-ne [] x e = cc
concat-ne (y ∷ xs) x e = cc

pub show-ne : (n : ℕ) → show n ≢ []
unfolding show show_loop
show-ne n = ground (arith, concat-ne (show_loop n (n / 10)) (b'0' + n % 10))
