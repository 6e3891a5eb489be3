-- ===== src/Routes/Domain/Suffix.antt =====
-- A domain lies under a suffix exactly when its labels end with the labels of the suffix, which is
-- when the reversed labels of the suffix begin its reversed labels.
use mathlib.Core.List.{reverse-append, reverse-reverse}
use anyhop.Prelude.{
  ◌≡◌, refl, sym, ap, ◌∙◌, false, ◌||◌, List, [], ◌∷◌, ◌++◌, reverse, arith, Text, Eq, ◌==◌, nat_eq,
  list_eq, inl, inr, Bool-cases,
}
use anyhop.Routes.Domain.{ends_with, starts_with, dot, domain_suffix_matches, split}

abbrev rest : List Text → List Text
rest [] = []
rest (part ∷ parts) = parts

pub split-cons : (t : Text) → (part : Text) × (parts : List Text) × (split t ≡ part ∷ parts)
unfolding split
split-cons [] = ([], [], refl)
split-cons (c ∷ t) =
    let (part, parts, e) = split-cons t in
    rw e (elim (Bool-cases (c == dot)) [
      | inl h ↦ ([], part ∷ parts, rw h)
      | inr h ↦ (c ∷ part, parts, rw h)
    ])

split-injective : (a b : Text) → split a ≡ split b → a ≡ b
unfolding split
split-injective [] [] h = refl
split-injective [] (d ∷ b) h = let (p, ps, e) = split-cons b in ground (arith, e)
split-injective (c ∷ a) [] h = let (p, ps, e) = split-cons a in ground (arith, e)
split-injective (c ∷ a) (d ∷ b) h =
    let (p, ps, e) = split-cons a in
    let (q, qs, f) = split-cons b in ground (arith, e, f, split-injective a b)

ends_with-split : (a b : Text) → ends_with b (dot ∷ a) ≡ ends_with (rest (split b)) (split a)
unfolding split ends_with
ends_with-split a [] = let (p, ps, e) = split-cons a in ground (arith, e)
ends_with-split a (c ∷ b) =
    let (p, ps, e) = split-cons a in
    let (q, qs, f) = split-cons b in
    ground (arith, e, f, ends_with-split a b, split-injective a b, split-injective b a)

-- The text comparison of the code is a comparison of labels.
pub domain_suffix_matches-split :
    (a b : Text) → domain_suffix_matches a b ≡ ends_with (split b) (split a)
unfolding domain_suffix_matches ends_with
domain_suffix_matches-split a b =
    let (p, ps, e) = split-cons b in ground (arith, e, ends_with-split a b, split-injective b a)

module _ {ℓ} {A : Type ℓ} ⦃e : Eq A⦄ where
  starts_with-append :
      (zs ps : List A) (y : A)
      → starts_with (zs ++ y ∷ []) ps ≡ (starts_with zs ps || (zs ++ y ∷ []) == ps)
  unfolding starts_with
  starts_with-append [] [] y = refl
  starts_with-append [] (p ∷ []) y = ground arith
  starts_with-append [] (p ∷ q ∷ ps) y = ground arith
  starts_with-append (z ∷ zs) [] y = refl
  starts_with-append (z ∷ zs) (p ∷ ps) y = ground (arith, starts_with-append zs ps y)

  reverse-injective : (xs ys : List A) → reverse xs ≡ reverse ys → xs ≡ ys
  reverse-injective xs ys h = sym (reverse-reverse xs) ∙ ap reverse h ∙ reverse-reverse ys

  reverse-cons : (xs : List A) (x : A) → reverse (x ∷ xs) ≡ reverse xs ++ x ∷ []
  reverse-cons xs x = reverse-append (x ∷ []) xs

  starts_with-nil : (xs : List A) (x : A) → starts_with [] (xs ++ x ∷ []) ≡ false
  unfolding starts_with
  starts_with-nil [] x = refl
  starts_with-nil (y ∷ xs) x = refl

  pub starts_with-reverse :
      (xs ys : List A) → starts_with (reverse ys) (reverse xs) ≡ ends_with ys xs
  unfolding ends_with starts_with
  starts_with-reverse [] [] = ground arith
  starts_with-reverse (x ∷ xs) [] = rw (reverse-cons, starts_with-nil) (ground arith)
  starts_with-reverse xs (y ∷ ys) = rw reverse-cons (
      rw (starts_with-append (reverse ys) (reverse xs) y, starts_with-reverse xs ys)
        (ground (arith, reverse-cons ys y, reverse-injective (y ∷ ys) xs)))
