-- ===== src/Routes/Domain.antt =====
-- `domain_suffix_matches` of routes.py, and the labels that `split(".")` makes of a domain.
pub mod Suffix
use anyhop.Prelude.{
  ℕ, Bool, false, ◌||◌, List, [], ◌∷◌, Text, Eq, ◌==◌, nat_eq, list_eq, if◌then◌else◌,
}

abbrev pub dot : ℕ
dot = b'.'

module _ {ℓ} {A : Type ℓ} ⦃e : Eq A⦄ where
  -- `xs.endswith(suffix)`
  unfoldable pub ends_with : List A → List A → Bool
  ends_with [] suffix = [] == suffix
  ends_with (x ∷ xs) suffix = (x ∷ xs) == suffix || ends_with xs suffix

  -- Whether `prefix` begins `xs`.
  unfoldable pub starts_with : List A → List A → Bool
  starts_with xs [] = Bool.true
  starts_with [] (y ∷ prefix) = false
  starts_with (x ∷ xs) (y ∷ prefix) = if x == y then starts_with xs prefix else false

-- The domain itself and its subdomains, on a dot boundary.
unfoldable pub domain_suffix_matches : Text → Text → Bool
unfolding ends_with
domain_suffix_matches suffix domain = domain == suffix || ends_with domain (dot ∷ suffix)

-- The parts grow at the front: `add_char` extends the first one.
unfoldable pub add_char : ℕ → List Text → List Text
add_char c [] = (c ∷ []) ∷ []
add_char c (part ∷ parts) = (c ∷ part) ∷ parts

-- `text.split(".")`
unfoldable pub split : Text → List Text
unfolding add_char
split [] = [] ∷ []
split (c ∷ text) = let parts = split text in if c == dot then [] ∷ parts else add_char c parts
