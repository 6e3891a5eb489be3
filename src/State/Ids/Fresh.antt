-- ===== src/State/Ids/Fresh.antt =====
-- About the loop of `_next_id` of state.py.
use anyhop.Prelude.{
  ℕ, zero, suc, ◌+◌, ◌<◌, ◌≤◌, ◌≡◌, ◌≢◌, inl, inr, Bool-cases, true, false, List, [], ◌∷◌, ◌++◌,
  arith, Text, ◌==◌, contains, list_eq, nat_eq, if◌then◌else◌,
}
use anyhop.Prelude.Decimal.{show, show-injective}
use anyhop.Prelude.Lists.{length}
use anyhop.State.Ids.{numbered, count_up, id_base, next_id}

without : Text → List Text → List Text
without t [] = []
without t (x ∷ xs) = let rest = without t xs in if x == t then rest else x ∷ rest

length-without_le : (t : Text) (xs : List Text) → length (without t xs) ≤ length xs
unfolding without
length-without_le t [] = omega arith
length-without_le t (x ∷ xs) = ground (arith, length-without_le t xs)

length-without :
    (t : Text) (xs : List Text) → contains xs t ≡ true → length (without t xs) < length xs
unfolding without contains
length-without t [] h = cc
length-without t (x ∷ xs) h = ground (arith, h, length-without t xs, length-without_le t xs)

contains-without :
    (t s : Text) (xs : List Text) → s ≢ t → contains xs s ≡ true → contains (without t xs) s ≡ true
unfolding without contains
contains-without t s [] ne h = cc
contains-without t s (x ∷ xs) ne h = ground (arith, ne, h, contains-without t s xs)

append-cancel : (base s t : Text) → base ++ s ≡ base ++ t → s ≡ t
append-cancel [] s t h = h
append-cancel (c ∷ base) s t h = append-cancel base s t (cc)

numbered-injective : (base : Text) (m n : ℕ) → numbered base m ≡ numbered base n → m ≡ n
unfolding numbered
numbered-injective base m n h =
    let tail : b'_' ∷ show m ≡ b'_' ∷ show n = append-cancel base _ _ h in show-injective m n (cc)

-- As many numbers in a row as are taken need as long a list.
pigeonhole :
    (base : Text) (fuel n : ℕ) (taken : List Text)
    → ((i : ℕ) → n ≤ i → i < n + fuel → contains taken (numbered base i) ≡ true)
    → fuel ≤ length taken
pigeonhole base zero n taken all = omega arith
pigeonhole base (suc fuel) n taken all =
    let fewer : fuel ≤ length (without (numbered base n) taken) =
      pigeonhole base fuel (suc n) (without (numbered base n) taken) (λ i lo hi.
        contains-without (numbered base n) (numbered base i) taken
          (λ same. absurd (omega (arith, lo, numbered-injective base i n same)))
          (all i (omega (arith, lo)) (omega (arith, hi)))) in
    omega (arith, fewer, length-without (numbered base n) taken (all n (omega arith) (omega arith)))

count_up-taken :
    (base : Text) (taken : List Text) (fuel n : ℕ)
    → contains taken (numbered base (count_up base taken fuel n)) ≡ true
    → (i : ℕ) → n ≤ i
    → i < n + fuel
    → contains taken (numbered base i) ≡ true
unfolding count_up
count_up-taken base taken zero n h i lo hi = absurd (omega (arith, lo, hi))
count_up-taken base taken (suc fuel) n h i lo hi =
    elim (Bool-cases (contains taken (numbered base n))) [
      | inl busy ↦ elim (nat_eq.dec i n) [
        | yes same ↦ rw same busy
        | no other ↦
            count_up-taken base taken fuel (n + 1) (rw (busy, count_up) at h) i (omega arith)
              (omega (arith, hi))
      ]
      | inr free ↦ absurd (ground (arith, free, h))
    ]

-- Whatever ids are taken, the numbering ends at one that is not taken.
pub next_id_fresh :
    (lower country_code : Text → Text) (taken : List Text) (country city : Text)
    → contains taken (next_id lower country_code taken country city) ≡ false
unfolding next_id
next_id_fresh lower country_code taken country city =
    let base = id_base lower country_code country city in
    elim (Bool-cases (contains taken (next_id lower country_code taken country city))) [
      | inl busy ↦ absurd (
          omega (
            arith,
            pigeonhole base (suc (length taken)) 1 taken
                (count_up-taken base taken (suc (length taken)) 1 busy),
          ))
      | inr free ↦ free
    ]
