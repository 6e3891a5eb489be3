-- ===== src/Routes/Index/Step.antt =====
-- How the answer of the index changes when one more rule is added behind the others.
use anyhop.Prelude.{
  ℕ, inl, inr, Bool-cases, Option-cases, ◌≡◌, ◌≢◌, true, false, Option, none, some, arith, list_eq,
  nat_eq, pair_eq, option_eq, bool_eq, if◌then◌else◌,
}
use anyhop.Prelude.Dict.{kept}
use anyhop.Network.{Parser, family_eq}
use anyhop.Rule.{all, domain_suffix, ip_cidr, Rule, matcher_eq, is_geo}
use anyhop.Routes.Match.{covers}
use anyhop.Routes.Trie.{earliest}
use anyhop.Routes.Trie.Laws.{earliest_assoc}
use anyhop.Routes.Index.{CoverIndex, prefixlens, add_network, add, first_cover}
use anyhop.Routes.Index.Parts.{IsBelow, family, is_covered, FamilyStep, first_cover-family}
use anyhop.Routes.Index.Plain.{geo_step, domain_step}
use anyhop.Routes.Index.Cidr.{network_step}

module _ (P : Parser) (n : ℕ) (a b : Rule) (index : CoverIndex) (h : IsBelow n index) where
  covers-all : a.type ≡ all → is_covered P a b ≡ true
  unfolding is_covered covers
  covers-all e = ground arith

  add-all :
      a.type ≡ all → add P n a index ≡ record index { all_rule = some (kept index.all_rule n) }
  unfolding add
  add-all e = ground arith

  family-all : (o : Option ℕ) → family P b (record index { all_rule = o }) ≡ family P b index
  unfolding family prefixlens
  family-all o = ground arith

  all_rule-add : a.type ≢ all → (add P n a index).all_rule ≡ index.all_rule
  unfolding add add_network
  all_rule-add ne = ground arith

  add-other :
      a.type ≢ all
      → is_geo a.type ≡ false
      → a.type ≢ domain_suffix
      → a.type ≢ ip_cidr
      → add P n a index ≡ index
  unfolding add
  add-other ne g nd nc = ground arith

  covers-other :
      a.type ≢ all
      → is_geo a.type ≡ false
      → a.type ≢ domain_suffix
      → a.type ≢ ip_cidr
      → is_covered P a b ≡ false
  unfolding is_covered covers
  covers-other ne g nd nc = ground arith

  family_step : a.type ≢ all → FamilyStep P n a b index
  unfolding earliest
  family_step ne = elim (Bool-cases (is_geo a.type)) [
    | inl g ↦ geo_step P n a b index h g
    | inr other ↦ elim (matcher_eq.dec a.type domain_suffix) [
      | yes e ↦ domain_step P n a b index h e
      | no nd ↦ elim (matcher_eq.dec a.type ip_cidr) [
        | yes e ↦ network_step P n a b index h e
        | no nc ↦ rw (add-other ne other nd nc, covers-other ne other nd nc) (ground arith)
      ]
    ]
  ]

  -- Adding a rule at a position behind all others adds that position to the candidates of
  -- exactly the rules that it covers.
  pub first_cover-add :
      first_cover P b (add P n a index)
      ≡ earliest (first_cover P b index) (if is_covered P a b then some n else none)
  unfolding earliest kept
  first_cover-add =
      rw (first_cover-family P b (add P n a index), first_cover-family P b index)
        (elim (matcher_eq.dec a.type all) [
          | yes e ↦
              rw (covers-all e, add-all e, family-all)
                (elim (Option-cases index.all_rule) [
                  | inl fresh ↦ ground (arith, fresh)
                  | inr (i, old) ↦ ground (arith, old, h.all_rule i old)
                ])
          | no ne ↦ ground (
            arith,
            all_rule-add ne,
            family_step ne,
            earliest_assoc index.all_rule (family P b index)
                (if is_covered P a b then some n else none),
          )
        ])
