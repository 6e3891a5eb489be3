-- ===== src/Routes/Shadow/Unreachable.antt =====
-- A rule that the lint reports never decides a destination.
use mathlib.Core.Option
use anyhop.Prelude.{
  ℕ, suc, inl, inr, Option-cases, Bool-cases, ◌<◌, ◌≡◌, ◌≢◌, refl, sym, ap, ◌∙◌, Bool, true, false,
  Option, none, some, List, [], ◌∷◌, ◌++◌, append_assoc, append-nil, arith, Text, ◌==◌, list_eq,
  nat_eq, if◌then◌else◌,
}
use anyhop.Prelude.Dict.{Dict, lookup, assign, lookup-assign}
use anyhop.Prelude.Lists.{length, find, position}
use anyhop.Network.{Parser}
use anyhop.Rule.{Rule}
use anyhop.Routes.Match.{Destination, match_destination}
use anyhop.Routes.Match.Covers.{covers_sound}
use anyhop.Routes.Index.Parts.{is_covered}
use anyhop.Routes.Shadow.{shadowed_by}
use anyhop.Routes.Shadow.Reference.{covering, noted, pairwise, shadowed_by-pairwise}

-- Whether a rule of the list has the id.
unfoldable pub has_id : Text → List Rule → Bool
has_id id [] = false
has_id id (rule ∷ rules) = if rule.id == id then true else has_id id rules

-- The position of the rule that decides: the first that matches.
unfoldable pub first_match : Parser → Destination → List Rule → Option ℕ
first_match P d = position (λ rule. match_destination P rule d)

module _ (P : Parser) where
  -- Rules with other ids leave an entry alone.
  lookup-pairwise :
      (id : Text) (earlier rest : List Rule) (out : Dict Text Text)
      → has_id id rest ≡ false
      → lookup id (pairwise P earlier rest out) ≡ lookup id out
  unfolding pairwise has_id noted
  lookup-pairwise id earlier [] out h = refl
  lookup-pairwise id earlier (rule ∷ rest) out h = elim (Option-cases (covering P earlier rule)) [
    | inl fresh ↦ ground (arith, fresh, h, lookup-pairwise id (earlier ++ rule ∷ []) rest out)
    | inr (cover, found) ↦ ground (
      arith,
      found,
      h,
      lookup-pairwise id (earlier ++ rule ∷ []) rest (assign rule.id cover.id out),
      lookup-assign id rule.id cover.id out,
    )
  ]

  lookup-noted :
      (rule : Rule) (cover : Option Rule) (out : Dict Text Text)
      → lookup rule.id (noted P rule cover out)
        ≡ elim cover [ none ↦ lookup rule.id out | some a ↦ some a.id ]
  unfolding noted
  lookup-noted rule none out = refl
  lookup-noted rule (some a) out = ground (arith, lookup-assign rule.id rule.id a.id out)

  pairwise-append :
      (earlier xs ys : List Rule) (out : Dict Text Text)
      → pairwise P earlier (xs ++ ys) out
        ≡ pairwise P (earlier ++ xs) ys (pairwise P earlier xs out)
  unfolding pairwise
  pairwise-append earlier [] ys out = rw append-nil
  pairwise-append earlier (x ∷ xs) ys out =
      pairwise-append (earlier ++ x ∷ []) xs ys (noted P x (covering P earlier x) out)
      ∙ ap
          (λ (zs : List Rule).
            pairwise P zs ys
              (pairwise P (earlier ++ x ∷ []) xs (noted P x (covering P earlier x) out)))
          (append_assoc earlier (x ∷ []) xs)

  first_match-lt :
      (d : Destination) (earlier rest : List Rule) (rule : Rule)
      → covering P earlier rule ≢ none
      → match_destination P rule d ≡ true
      → (i : ℕ) × (first_match P d (earlier ++ rest) ≡ some i) × (i < length earlier)
  unfolding first_match covering find is_covered position
  first_match-lt d [] rest rule h k = absurd (h refl)
  first_match-lt d (x ∷ xs) rest rule h k = elim (Bool-cases (match_destination P x d)) [
    | inl now ↦ (0, ground (arith, now), omega arith)
    | inr later ↦
        let more : covering P xs rule ≢ none =
          λ gone. h (ground (arith, gone, later, k, covers_sound P x rule d)) in
        let (i, found, lt) = first_match-lt d xs rest rule more k in
        (suc i, ground (arith, later, found), omega (arith, lt))
  ]

  -- What the lint says of a rule whose id no other rule has: the id of the earliest earlier rule
  -- that covers it, and nothing if there is none.
  pub shadowed_by-lookup :
      (earlier rest : List Rule) (rule : Rule) (out : Dict Text Text)
      → has_id rule.id earlier ≡ false
      → has_id rule.id rest ≡ false
      → shadowed_by P (earlier ++ rule ∷ rest) ≡ some out
      → lookup rule.id out ≡ Option.map (λ a. a.id) (covering P earlier rule)
  unfolding pairwise noted lookup
  shadowed_by-lookup earlier rest rule out he hr h =
      let before : Dict Text Text = pairwise P [] earlier [] in
      let whole : some (pairwise P [] (earlier ++ rule ∷ rest) []) ≡ some out =
        sym (shadowed_by-pairwise P (earlier ++ rule ∷ rest)) ∙ h in
      ground (
        arith,
        whole,
        pairwise-append [] earlier (rule ∷ rest) [],
        lookup-pairwise rule.id [] earlier [] he,
        lookup-pairwise rule.id (earlier ++ rule ∷ []) rest
            (noted P rule (covering P earlier rule) before) hr,
        lookup-noted rule (covering P earlier rule) before,
      )

  -- If the lint reports a rule whose id no other rule has, any destination that the rule matches
  -- is decided by a rule before it.
  pub shadowed_unreachable :
      (earlier rest : List Rule) (rule : Rule) (out : Dict Text Text) (d : Destination)
      → has_id rule.id earlier ≡ false
      → has_id rule.id rest ≡ false
      → shadowed_by P (earlier ++ rule ∷ rest) ≡ some out
      → lookup rule.id out ≢ none
      → match_destination P rule d ≡ true
      → (i : ℕ) × (first_match P d (earlier ++ rule ∷ rest) ≡ some i) × (i < length earlier)
  shadowed_unreachable earlier rest rule out d he hr h k m =
      first_match-lt d earlier (rule ∷ rest) rule
        (λ gone. k (ground (arith, gone, shadowed_by-lookup earlier rest rule out he hr h))) m
