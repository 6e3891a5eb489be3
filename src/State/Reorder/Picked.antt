-- ===== src/State/Reorder/Picked.antt =====
-- About `_check_permutation` of state.py and the blocks that its ids pick.
use mathlib.Core.Path.{subst}
use anyhop.Prelude.{
  inl, inr, Option-cases, Bool-cases, ◌≡◌, ◌≢◌, ◌⊎◌, refl, sym, ap, Bool, true, false, not, ◌&&◌,
  none, some, List, [], ◌∷◌, ◌++◌, arith, Text, ◌==◌, contains, list_eq, nat_eq,
}
use anyhop.Prelude.Lists.{In, find, select}
use anyhop.Result.{ok, ◌>>◌, >>=-eq-ok}
use anyhop.State.{StateError, duplicate_ids, unknown_ids, missing_ids}
use anyhop.State.Rulesets.{Block}
use anyhop.State.Rulesets.Blocks.{flatten, IsBlock, Fits}
use anyhop.State.Reorder.{block_ids, repeated, require_none, check_permutation, rows_in_order}

-- The ids are distinct, and none was seen before.
abbrev pub Fresh : List Text → List Text → Type 0
Fresh seen [] = Unit
Fresh seen (id ∷ ids) = (contains seen id ≡ false) × Fresh (id ∷ seen) ids

repeated-ne : (ids seen dupes : List Text) → dupes ≢ [] → repeated ids seen dupes ≢ []
unfolding repeated
repeated-ne [] seen dupes ne = ne
repeated-ne (id ∷ ids) seen dupes ne =
    elim (Bool-cases (contains seen id && not (contains dupes id))) [
      | inl new ↦ rw new (repeated-ne ids (id ∷ seen) (dupes ++ id ∷ []) (concat-ne dupes id))
      | inr old ↦ rw old (repeated-ne ids (id ∷ seen) dupes ne)
    ]
  where
    concat-ne : (l : List Text) (t : Text) → l ++ t ∷ [] ≢ []
    concat-ne [] t h = cc
    concat-ne (x ∷ l) t h = cc

repeated-none : (ids seen : List Text) → repeated ids seen [] ≡ [] → Fresh seen ids
unfolding repeated contains
repeated-none [] seen e = tt
repeated-none (id ∷ ids) seen e = elim (Bool-cases (contains seen id)) [
  | inl again ↦ absurd (repeated-ne ids (id ∷ seen) (id ∷ []) (λ h. cc) (rw again at e))
  | inr new ↦ (new, repeated-none ids (id ∷ seen) (rw new at e))
]

select-none :
    (test : Text → Bool) (ids : List Text) (id : Text)
    → select test ids ≡ []
    → In id ids
    → test id ≡ false
unfolding select
select-none test [] id e m = absurd m
select-none test (x ∷ ids) id e (inl same) = ground (arith, e, ap test same)
select-none test (x ∷ ids) id e (inr m) = ground (arith, e, select-none test ids id, m)

require_none-ok :
    (ids : List Text) (e : List Text → StateError) (u : Unit {0})
    → require_none ids e ≡ ok u
    → ids ≡ []
unfolding require_none
require_none-ok [] e u h = refl
require_none-ok (id ∷ ids) e u h = absurd (cc)

-- What a pass of `_check_permutation` says.
pub check_permutation-ok :
    (current proposed : List Text) (u : Unit {0})
    → check_permutation current proposed ≡ ok u
    → Fresh [] proposed
      × ((id : Text) → In id proposed → contains current id ≡ true)
      × ((id : Text) → In id current → contains proposed id ≡ true)
unfolding check_permutation
check_permutation-ok current proposed u h =
    let strangers = select (λ id. not (contains current id)) proposed in
    let absent = select (λ id. not (contains proposed id)) current in
    let (v, two, three) =
      >>=-eq-ok
        (require_none (repeated proposed [] []) duplicate_ids >> require_none strangers unknown_ids)
        _ h in
    let (w, one, second) = >>=-eq-ok (require_none (repeated proposed [] []) duplicate_ids) _ two in
    (
      repeated-none proposed [] (require_none-ok (repeated proposed [] []) duplicate_ids w one),
      λ id m. ground (
        arith,
        select-none (λ id. not (contains current id)) proposed id
            (require_none-ok strangers unknown_ids v second) m,
      ),
      λ id m. ground (
        arith,
        select-none (λ id. not (contains proposed id)) current id
            (require_none-ok absent missing_ids u three) m,
      ),
    )

-- The blocks of ids, in the order of the ids.
abbrev pub picked : List Block → List Text → List Block
picked blocks [] = []
picked blocks (id ∷ ids) = elim (find (λ (b : Block). b.id == id) blocks) [
  | none ↦ picked blocks ids
  | some b ↦ b ∷ picked blocks ids
]

pub rows_in_order-flatten :
    (blocks : List Block) (ids : List Text) → rows_in_order blocks ids ≡ flatten (picked blocks ids)
unfolding rows_in_order flatten
rows_in_order-flatten blocks [] = refl
rows_in_order-flatten blocks (id ∷ ids) =
    elim (Option-cases (find (λ (b : Block). b.id == id) blocks)) [
      | inl absent ↦ rw (absent, rows_in_order, picked) (rows_in_order-flatten blocks ids)
      | inr (b, found) ↦
          rw (found, rows_in_order, picked, flatten)
            (ap (λ l. b.rules ++ l) (rows_in_order-flatten blocks ids))
    ]

find_block :
    (blocks : List Block) (id : Text)
    → contains (block_ids blocks) id ≡ true
    → (b : Block) × (find (λ (b : Block). b.id == id) blocks ≡ some b) × In b blocks × (b.id ≡ id)
unfolding contains block_ids find
find_block [] id h = absurd (cc)
find_block (b ∷ blocks) id h = elim (list_eq.dec b.id id) [
  | yes same ↦ (b, ground (arith, same), inl refl, same)
  | no other ↦
      let (c, found, m, same) = find_block blocks id (ground (arith, h, other)) in
      (c, ground (arith, other, found), inr m, same)
]

pub Fits-IsBlock :
    (closed : List Text) (blocks : List Block) (b : Block)
    → Fits closed blocks
    → In b blocks
    → IsBlock b
Fits-IsBlock closed [] b fits m = absurd m
Fits-IsBlock closed (c ∷ blocks) b (is, free, fits) (inl same) = subst IsBlock (sym same) is
Fits-IsBlock closed (c ∷ blocks) b (is, free, fits) (inr m) =
    Fits-IsBlock (c.id ∷ closed) blocks b fits m

Fits-free :
    (closed : List Text) (blocks : List Block) (b : Block)
    → Fits closed blocks
    → In b blocks
    → contains closed b.id ≡ false
unfolding contains
Fits-free closed [] b fits m = absurd m
Fits-free closed (c ∷ blocks) b (is, free, fits) (inl same) = cc
Fits-free closed (c ∷ blocks) b (is, free, fits) (inr m) =
    ground (arith, Fits-free (c.id ∷ closed) blocks b fits m)

pub find_of_Fits :
    (closed : List Text) (blocks : List Block) (b : Block)
    → Fits closed blocks
    → In b blocks
    → find (λ (c : Block). c.id == b.id) blocks ≡ some b
unfolding find contains
find_of_Fits closed [] b fits m = absurd m
find_of_Fits closed (c ∷ blocks) b (is, free, fits) (inl same) = ground (arith, same)
find_of_Fits closed (c ∷ blocks) b (is, free, fits) (inr m) =
    ground (
      arith,
      Fits-free (c.id ∷ closed) blocks b fits m,
      find_of_Fits (c.id ∷ closed) blocks b fits m,
    )

find-In :
    (blocks : List Block) (id : Text) (b : Block)
    → find (λ (c : Block). c.id == id) blocks ≡ some b
    → In b blocks
unfolding find
find-In [] id b e = absurd (cc)
find-In (c ∷ blocks) id b e = ground (arith, e, find-In blocks id b)

picked-cons :
    (blocks : List Block) (ids : List Text) (id : Text) (b : Block)
    → find (λ (b : Block). b.id == id) blocks ≡ some b
    → picked blocks (id ∷ ids) ≡ b ∷ picked blocks ids
picked-cons blocks ids id b found = rw (found, picked) refl

picked_head :
    (blocks : List Block) (ids seen : List Text) (id : Text) (b : Block)
    → find (λ (b : Block). b.id == id) blocks ≡ some b
    → Fits seen (b ∷ picked blocks ids) × (block_ids (b ∷ picked blocks ids) ≡ id ∷ ids)
    → Fits seen (picked blocks (id ∷ ids)) × (block_ids (picked blocks (id ∷ ids)) ≡ id ∷ ids)
picked_head blocks ids seen id b found t =
    subst (λ l. Fits seen l × (block_ids l ≡ id ∷ ids)) (sym (picked-cons blocks ids id b found)) t

pub picked-Fits :
    (blocks : List Block) (ids seen : List Text)
    → Fits [] blocks
    → Fresh seen ids
    → ((id : Text) → In id ids → contains (block_ids blocks) id ≡ true)
    → Fits seen (picked blocks ids) × (block_ids (picked blocks ids) ≡ ids)
unfolding block_ids
picked-Fits blocks [] seen fits fresh known = (tt, refl)
picked-Fits blocks (id ∷ ids) seen fits (new, fresh) known =
    let (b, found, m, same) = find_block blocks id (known id (inl refl)) in
    let fresh_b : Fresh (b.id ∷ seen) ids = subst (λ t. Fresh (t ∷ seen) ids) (sym same) fresh in
    let (rest, ids_rest) =
      picked-Fits blocks ids (b.id ∷ seen) fits fresh_b (λ i k. known i (inr k)) in
    picked_head blocks ids seen id b found
      ((Fits-IsBlock [] blocks b fits m, cc (new, same), rest), cc (same, ids_rest))

pub picked_sound :
    (blocks : List Block) (ids : List Text) (b : Block) → In b (picked blocks ids) → In b blocks
picked_sound blocks [] b m = absurd m
picked_sound blocks (id ∷ ids) b m = elim (Option-cases (find (λ (b : Block). b.id == id) blocks)) [
  | inl absent ↦ picked_sound blocks ids b (rw (absent, picked) at m)
  | inr (c, found) ↦ elim (subst (In b) (picked-cons blocks ids id c found) m) [
    | inl same ↦ subst (λ k. In k blocks) (sym same) (find-In blocks id c found)
    | inr later ↦ picked_sound blocks ids b later
  ]
]

pub picked_complete :
    (blocks : List Block) (ids : List Text) (b : Block)
    → find (λ (c : Block). c.id == b.id) blocks ≡ some b
    → contains ids b.id ≡ true
    → In b (picked blocks ids)
unfolding contains
picked_complete blocks [] b found h = cc
picked_complete blocks (id ∷ ids) b found h = elim (list_eq.dec b.id id) [
  | yes same ↦
      let here : find (λ (c : Block). c.id == id) blocks ≡ some b =
        subst (λ t. find (λ (c : Block). c.id == t) blocks ≡ some b) same found in
      subst (In b) (sym (picked-cons blocks ids id b here)) (inl refl)
  | no other ↦
      skip (Option-cases (find (λ (c : Block). c.id == id) blocks))
        (picked_complete blocks ids b found (ground (arith, h, other)))
]
  where
    skip :
        (find (λ (c : Block). c.id == id) blocks ≡ none)
          ⊎ ((c : Block) × (find (λ (c : Block). c.id == id) blocks ≡ some c))
        → In b (picked blocks ids)
        → In b (picked blocks (id ∷ ids))
    skip (inl absent) m = rw (absent, picked) m
    skip (inr (c, there)) m = subst (In b) (sym (picked-cons blocks ids id c there)) (inr m)

pub In-block_ids : (blocks : List Block) (b : Block) → In b blocks → In b.id (block_ids blocks)
unfolding block_ids
In-block_ids [] b m = absurd m
In-block_ids (c ∷ blocks) b (inl same) = inl (cc)
In-block_ids (c ∷ blocks) b (inr m) = inr (In-block_ids blocks b m)
