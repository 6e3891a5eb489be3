-- ===== src/Routes/Index/Invariant.antt =====
-- The positions in the index stay below the number of rules added.
use anyhop.Prelude.{
  ℕ, suc, inl, inr, Option-cases, ◌<◌, ◌≡◌, refl, true, none, some, List, arith, Text, Eq, list_eq,
  nat_eq, pair_eq, option_eq, contains,
}
use anyhop.Prelude.Dict.{Dict, lookup, set_default, kept, lookup-set_default}
use anyhop.Network.{Family, Parser, family_eq}
use anyhop.Rule.{Rule, matcher_eq}
use anyhop.Routes.Trie.{Labels, index_of, insert}
use anyhop.Routes.Trie.Laws.{stored, stored-new, index_of-insert, stored-insert}
use anyhop.Routes.Index.{CoverIndex, new_index, prefixlens, add_length, labels, add_network, add}
use anyhop.Routes.Index.Parts.{IsBelow, labels-cons}

pub new_index-IsBelow : (n : ℕ) → IsBelow n new_index
unfolding lookup index_of
new_index-IsBelow n = record {
  all_rule = λ i e. cc;
  geo = λ k i e. cc;
  domains = λ p i e. cc (stored-new p, e);
  root = refl;
  networks = λ v l a i e. cc;
  lengths = λ v l a i e. cc;
}

-- A position read from a dict that has one more entry.
set_default_below {ℓ} :
    {K : Type ℓ} ⦃e : Eq K⦄ (j k : K) (n : ℕ) (d : Dict K ℕ) (i : ℕ)
    → ((m : ℕ) → lookup j d ≡ some m → m < n)
    → lookup j (set_default k n d) ≡ some i
    → i < suc n
unfolding kept
set_default_below j k n d i h e = elim (Option-cases (lookup j d)) [
  | inl fresh ↦ ground (arith, fresh, e, lookup-set_default j k n d)
  | inr (m, old) ↦ ground (arith, old, e, h m old, lookup-set_default j k n d)
]

stored_below :
    (p q : List Text) (n : ℕ) (d : Labels) (i : ℕ)
    → ((m : ℕ) → stored q d ≡ some m → m < n)
    → stored q (insert p n d) ≡ some i
    → i < suc n
unfolding kept
stored_below p q n d i h e = elim (Option-cases (stored q d)) [
  | inl fresh ↦ ground (arith, fresh, e, stored-insert p q n d)
  | inr (m, old) ↦ ground (arith, old, e, h m old, stored-insert p q n d)
]

contains-add_length :
    (lens : List ℕ) (l m : ℕ) → contains lens m ≡ true → contains (add_length l lens) m ≡ true
unfolding add_length contains
contains-add_length lens l m h = ground (arith, h)

contains-add_length_self : (lens : List ℕ) (l : ℕ) → contains (add_length l lens) l ≡ true
unfolding add_length contains
contains-add_length_self lens l = ground arith

module _ (P : Parser) (n : ℕ) (a : Rule) (index : CoverIndex) (h : IsBelow n index) where
  root-add : index_of (add P n a index).domains ≡ none
  unfolding add add_network
  root-add =
      let (l, p, e) = labels-cons a.value in
      ground (arith, h.root, index_of-insert l p n index.domains, e)

  networks-add :
      (v : Family) (l o i : ℕ) → lookup (v, (l, o)) (add P n a index).networks ≡ some i → i < suc n
  unfolding add add_network
  networks-add v l o i e = elim (Option-cases (P.network a.value)) [
    | inl bad ↦ ground (arith, bad, e, h.networks v l o i)
    | inr (net, good) ↦ ground (
      arith,
      good,
      e,
      h.networks v l o i,
      set_default_below (v, (l, o)) (net.version, (net.prefixlen, net.address)) n index.networks i
          (h.networks v l o),
    )
  ]

  lengths-add :
      (v : Family) (l o i : ℕ)
      → lookup (v, (l, o)) (add P n a index).networks ≡ some i
      → contains (prefixlens (add P n a index) v) l ≡ true
  unfolding add add_network prefixlens
  lengths-add v l o i e = elim (Option-cases (P.network a.value)) [
    | inl bad ↦ ground (arith, bad, e, h.lengths v l o i)
    | inr (net, good) ↦ ground (
      arith,
      good,
      e,
      h.lengths v l o i,
      lookup-set_default (v, (l, o)) (net.version, (net.prefixlen, net.address)) n index.networks,
      contains-add_length (prefixlens index v) net.prefixlen l,
      contains-add_length_self (prefixlens index v) net.prefixlen,
    )
  ]

  pub add-IsBelow : IsBelow (suc n) (add P n a index)
  unfolding add add_network kept
  add-IsBelow = record {
    all_rule = λ i e. elim (Option-cases index.all_rule) [
      | inl fresh ↦ ground (arith, fresh, e)
      | inr (m, old) ↦ ground (arith, old, e, h.all_rule m old)
    ];
    geo = λ k i e.
        ground (arith, e, h.geo k i, set_default_below k (a.type, a.value) n index.geo i (h.geo k));
    domains = λ p i e.
        ground (
          arith,
          e,
          h.domains p i,
          stored_below (labels a.value) p n index.domains i (h.domains p),
        );
    root = root-add;
    networks = networks-add;
    lengths = lengths-add;
  }
