-- ===== src/State/RuleEdits/Created.antt =====
-- About `create_ruleset` of state.py.
use mathlib.Core.Path.{subst}
use anyhop.Prelude.{
  inl, inr, ◌≡◌, ◌≢◌, ◌⊎◌, refl, sym, ap, ◌∙◌, not, some, List, [], ◌∷◌, ◌++◌, append_assoc,
  append-nil, Text, ◌==◌, list_eq, nat_eq,
}
use anyhop.Prelude.Lists.{In}
use anyhop.Result.{ok, ◌>>=◌, ◌>>◌, require, >>=-eq-ok}
use anyhop.Rule.{Rule}
use anyhop.State.{Data, empty_name, no_matchers, channel_at}
use anyhop.State.Channels.{ensure_channel_target}
use anyhop.State.Guard.{TargetsLive, ensure_channel_target-ok}
use anyhop.State.Ids.{target_ref}
use anyhop.State.Rulesets.{Block, next_rule_id, next_ruleset_id, ruleset_blocks}
use anyhop.State.Rulesets.Numbers.{next_rule_id_fresh, next_ruleset_id_fresh}
use anyhop.State.RuleEdits.{Matcher, with_rules, is_empty, make_rules, last_block, create_ruleset}

-- No two rows have one id.
abbrev pub DistinctIds : List Rule → Type 0
DistinctIds [] = Unit
DistinctIds (rule ∷ rules) =
    ((other : Rule) → In other rules → other.id ≢ rule.id) × DistinctIds rules

pub In-append : (xs ys : List Rule) (r : Rule) → In r (xs ++ ys) → In r xs ⊎ In r ys
In-append [] ys r m = inr m
In-append (x ∷ xs) ys r (inl same) = inl (inl same)
In-append (x ∷ xs) ys r (inr m) = elim (In-append xs ys r m) [ inl k ↦ inl (inr k) | inr k ↦ inr k ]

pub DistinctIds-concat :
    (rules : List Rule) (rule : Rule)
    → DistinctIds rules
    → ((other : Rule) → In other rules → other.id ≢ rule.id)
    → DistinctIds (rules ++ rule ∷ [])
DistinctIds-concat [] rule d new = ((λ other m. absurd m), tt)
DistinctIds-concat (r ∷ rules) rule (head, d) new = (
  (λ other m. elim (In-append rules (rule ∷ []) other m) [
    | inl old ↦ head other old
    | inr (inl same) ↦ λ e. new r (inl refl) (cc (e, same))
    | inr (inr never) ↦ absurd never
  ]),
  DistinctIds-concat rules rule d (λ other m. new other (inr m)),
)

-- The matchers of rows.
abbrev pub matchers_of : List Rule → List Matcher
matchers_of [] = []
matchers_of (rule ∷ rules) = (rule.type, rule.value) ∷ matchers_of rules

matchers_of-concat :
    (rules : List Rule) (rule : Rule)
    → matchers_of (rules ++ rule ∷ []) ≡ matchers_of rules ++ (rule.type, rule.value) ∷ []
matchers_of-concat [] rule = refl
matchers_of-concat (r ∷ rules) rule =
    ap (λ l. (r.type, r.value) ∷ l) (matchers_of-concat rules rule)

-- The row belongs to the ruleset of the id and the name, and goes to the target.
abbrev pub Belongs : Text → Text → Text → Rule → Type 0
Belongs target rsid name rule =
    (rule.target ≡ target) × (rule.ruleset_id ≡ rsid) × (rule.ruleset_name ≡ some name)

module _ (rules : List Rule) (target rsid name : Text) where
  -- Rows made for matchers: their ids are new, and they have the target and the ruleset.
  abbrev pub Made : List Rule → Type 0
  Made created =
      DistinctIds (rules ++ created)
      × ((rule : Rule) → In rule created → Belongs target rsid name rule)

  pub make_rules-Made :
      (matchers : List Matcher) (created : List Rule)
      → Made created
      → Made (make_rules rules target rsid name matchers created)
  unfolding make_rules
  make_rules-Made [] created made = made
  make_rules-Made ((type, value) ∷ matchers) created (distinct, fields) =
      let rule : Rule = record {
        id = next_rule_id (rules ++ created);
        type = type;
        value = value;
        target = target;
        ruleset_id = rsid;
        ruleset_name = some name;
      } in
      make_rules-Made matchers (created ++ rule ∷ []) (
        subst DistinctIds (append_assoc rules created (rule ∷ [])) (
            DistinctIds-concat (rules ++ created) rule distinct
              (next_rule_id_fresh (rules ++ created))),
        λ other m. elim (In-append created (rule ∷ []) other m) [
          | inl old ↦ fields other old
          | inr (inl same) ↦ subst (Belongs target rsid name) (sym same) (refl, refl, refl)
          | inr (inr never) ↦ absurd never
        ],
      )

  matchers_of-make_rules :
      (matchers : List Matcher) (created : List Rule)
      → matchers_of (make_rules rules target rsid name matchers created)
        ≡ matchers_of created ++ matchers
  unfolding make_rules
  matchers_of-make_rules [] created = sym (append-nil (matchers_of created))
  matchers_of-make_rules ((type, value) ∷ matchers) created =
      matchers_of-make_rules matchers _
      ∙ ap (λ l. l ++ matchers) (matchers_of-concat created _)
      ∙ append_assoc (matchers_of created) ((type, value) ∷ []) matchers

-- What a create leaves: the old rules and the new rows behind them.
pub record Created (state after : Data) (target name : Text) (matchers : List Matcher)
    : Type 0 where
  pub rows : List Rule
  pub rules_after : after.router.rules ≡ state.router.rules ++ rows
  pub rows_matchers : matchers_of rows ≡ matchers
  pub rsid : Text
  pub rows_belong : (rule : Rule) → In rule rows → Belongs target rsid name rule
  pub rsid_new : (old : Rule) → In old state.router.rules → old.ruleset_id ≢ rsid
  pub distinct : DistinctIds after.router.rules
  pub live : TargetsLive after
  pub channels_kept : after.providers ≡ state.providers

live_after :
    (state : Data) (rows : List Rule) (target : Text) (u : Unit {0})
    → TargetsLive state
    → ensure_channel_target state target ≡ ok u
    → ((rule : Rule) → In rule rows → rule.target ≡ target)
    → TargetsLive (with_rules (state.router.rules ++ rows) state)
unfolding with_rules channel_at
live_after state rows target u t passed to = record {
  live = λ rule p c m e. elim (In-append state.router.rules rows rule m) [
    | inl old ↦ t.live rule p c old e
    | inr new ↦
        ensure_channel_target-ok state target u p c passed (ap target_ref (sym (to rule new)) ∙ e)
  ];
}

created :
    (state : Data) (target name : Text) (matchers : List Matcher) (rows : List Rule) (u : Unit {0})
    → TargetsLive state
    → ensure_channel_target state target ≡ ok u
    → DistinctIds (state.router.rules ++ rows)
    → ((rule : Rule) → In rule rows → Belongs target (next_ruleset_id state.router.rules) name rule)
    → matchers_of rows ≡ matchers
    → Created state (with_rules (state.router.rules ++ rows) state) target name matchers
unfolding with_rules
created state target name matchers rows u t passed distinct fields contents = record {
  rows = rows;
  rules_after = refl;
  rows_matchers = contents;
  rsid = next_ruleset_id state.router.rules;
  rows_belong = fields;
  rsid_new = λ old m. next_ruleset_id_fresh state.router.rules old m;
  distinct = distinct;
  live = live_after state rows target u t passed (λ rule m. (fields rule m).0);
  channels_kept = refl;
}

-- If targets are live, the ids of rules are distinct and a ruleset is created, its rows stand
-- behind the rules that were there and have the matchers in their order, the target, the
-- stripped name, and one ruleset id that no earlier rule has; the ids of rules stay distinct, no
-- provider changes, and each rule still names a channel that is there and on.
pub create_ruleset-Created :
    (strip_space : Text → Text) (state after : Data) (name target : Text) (matchers : List Matcher)
    (block : Block)
    → TargetsLive state
    → DistinctIds state.router.rules
    → create_ruleset strip_space state name target matchers ≡ ok (block, after)
    → Created state after target (strip_space name) matchers
unfolding create_ruleset
create_ruleset-Created strip_space state after name target matchers block t d e =
    let rules = state.router.rules in
    let rsid = next_ruleset_id rules in
    let rows = make_rules rules target rsid (strip_space name) matchers [] in
    let (b, checked, done) =
      >>=-eq-ok
        (require (not (is_empty matchers)) no_matchers
          >> require (not (strip_space name == [])) empty_name
          >> ensure_channel_target state target
          >> (ruleset_blocks (rules ++ rows) >>= last_block))
        _ e in
    let (u, first, read) =
      >>=-eq-ok
        (require (not (is_empty matchers)) no_matchers
          >> require (not (strip_space name == [])) empty_name
          >> ensure_channel_target state target)
        _ checked in
    let (v, requires, passed) =
      >>=-eq-ok
        (require (not (is_empty matchers)) no_matchers
          >> require (not (strip_space name == [])) empty_name)
        _ first in
    let (distinct, fields) =
      make_rules-Made rules target rsid (strip_space name) matchers []
        (subst DistinctIds (sym (append-nil rules)) d, λ rule m. absurd m) in
    let same : with_rules (rules ++ rows) state ≡ after = cc in
    subst (λ new. Created state new target (strip_space name) matchers) same
      (created state target (strip_space name) matchers rows u t passed distinct fields
        (matchers_of-make_rules rules target rsid (strip_space name) matchers []))
