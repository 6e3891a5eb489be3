-- ===== src/State/Guard.antt =====
-- The rule that a routing target names a channel that is there and switched on, and what refuses an
-- operation that would break it.
use mathlib.Core.Path.{subst}
use anyhop.Prelude.{
  inl, inr, Option-cases, Bool-cases, ◌≡◌, ◌≢◌, refl, sym, true, false, ◌++◌, some, List, [], ◌∷◌,
  arith, Text, contains, list_eq, nat_eq, pair_eq,
}
use anyhop.Prelude.Dict.{Dict, lookup, assign}
use anyhop.Prelude.Lists.{In}
use anyhop.Result.{ok}
use anyhop.Rule.{Rule}
use anyhop.State.{Data, Channel, channel_at}
use anyhop.State.Ids.{target_ref}
use anyhop.State.Channels.{
  Ref, append_rule, is_referenced, rules_referencing, require_unreferenced, ensure_channel_target,
}

-- The channel is there and switched on.
abbrev pub Live : Data → Text → Text → Type 0
Live state provider cid =
    (ch : Channel) × (channel_at state provider cid ≡ some ch) × (ch.enabled ≡ true)

-- Each target that names a channel names one that is there and switched on.
pub record TargetsLive (state : Data) : Type 0 where
  pub live :
      (rule : Rule) (provider cid : Text)
      → In rule state.router.rules
      → target_ref rule.target ≡ some (provider, cid)
      → Live state provider cid

append_rule-ne :
    (key : Text) (rule : Rule) (out : Dict Text (List Rule)) → append_rule key rule out ≢ []
unfolding append_rule assign
append_rule-ne key rule out e = elim (Option-cases (lookup key out)) [
  | inl absent ↦ assigned key (rule ∷ []) out (ground (arith, e, absent))
  | inr (rules, found) ↦ assigned key (rules ++ rule ∷ []) out (ground (arith, e, found))
]
  where
    assigned : (k : Text) (v : List Rule) (d : Dict Text (List Rule)) → assign k v d ≢ []
    assigned k v [] h = cc
    assigned k v ((j, w) ∷ d) h = ground (arith, h)

rules_referencing-ne :
    (rules : List Rule) (refs : List Ref) (out : Dict Text (List Rule))
    → out ≢ []
    → rules_referencing rules refs out ≢ []
unfolding rules_referencing
rules_referencing-ne [] refs out ne = ne
rules_referencing-ne (rule ∷ rules) refs out ne = elim (Bool-cases (is_referenced refs rule)) [
  | inl yes_ref ↦ rw yes_ref (
      rules_referencing-ne rules refs (append_rule rule.target rule out)
        (append_rule-ne rule.target rule out))
  | inr no_ref ↦ rw no_ref (rules_referencing-ne rules refs out ne)
]

-- No blockers: no rule names one of the channels.
rules_referencing-none :
    (rules : List Rule) (refs : List Ref)
    → rules_referencing rules refs [] ≡ []
    → (rule : Rule) → In rule rules
    → is_referenced refs rule ≡ false
unfolding rules_referencing
rules_referencing-none [] refs e rule m = absurd m
rules_referencing-none (first ∷ rules) refs e rule m =
    elim (Bool-cases (is_referenced refs first)) [
      | inl yes_ref ↦ absurd (
          rules_referencing-ne rules refs (append_rule first.target first [])
            (append_rule-ne first.target first []) (rw yes_ref at e))
      | inr no_ref ↦ elim m [
        | inl same ↦ subst (λ (r : Rule). is_referenced refs r ≡ false) (sym same) no_ref
        | inr later ↦ rules_referencing-none rules refs (rw no_ref at e) rule later
      ]
    ]

-- What passes the check of the blockers is named by no target.
pub require_unreferenced-ok :
    (state : Data) (refs : List Ref) (u : Unit {0})
    → require_unreferenced state refs ≡ ok u
    → (rule : Rule) (provider cid : Text) → In rule state.router.rules
    → target_ref rule.target ≡ some (provider, cid)
    → contains refs (provider, cid) ≡ false
unfolding require_unreferenced is_referenced
require_unreferenced-ok state refs u e rule provider cid m t =
    let free : is_referenced refs rule ≡ false =
      rules_referencing-none state.router.rules refs
        (none_of (rules_referencing state.router.rules refs []) refl) rule m in
    ground (arith, free, t)
  where
    none_of :
        (out : Dict Text (List Rule))
        → rules_referencing state.router.rules refs [] ≡ out
        → rules_referencing state.router.rules refs [] ≡ []
    none_of [] h = h
    none_of (b ∷ out) h = absurd (ground (arith, e, h))

-- A target that passes `_ensure_channel_target` and names a channel names a live one.
pub ensure_channel_target-ok :
    (state : Data) (target : Text) (u : Unit {0}) (provider cid : Text)
    → ensure_channel_target state target ≡ ok u
    → target_ref target ≡ some (provider, cid)
    → Live state provider cid
unfolding ensure_channel_target
ensure_channel_target-ok state target u provider cid e t =
    elim (Option-cases (channel_at state provider cid)) [
      | inl absent ↦ absurd (ground (arith, e, t, absent))
      | inr (ch, found) ↦ (ch, found, ground (arith, e, t, found))
    ]
