-- ===== src/State/Setup/Merged.antt =====
-- About `merge_setup` of state.py: the ports and the targets of rules after a merge.
use mathlib.Core.Path.{subst}
use anyhop.Prelude.{
  ℕ, inl, inr, ◌≡◌, ◌≢◌, ◌⊎◌, append-nil, refl, sym, ap, ◌∙◌, Bool, true, ◌++◌, Option, List, [],
  ◌∷◌, arith, list_eq, nat_eq, pair_eq, bool_eq, option_eq,
}
use anyhop.Prelude.Dict.{lookup-pop, items, has_key}
use anyhop.Prelude.Lists.{In}
use anyhop.Result.{ok, ◌>>◌, >>=-eq-ok}
use anyhop.Rule.{Rule}
use anyhop.State.{Data, channel_at}
use anyhop.State.Ids.{target_ref}
use anyhop.State.Guard.{TargetsLive, ensure_channel_target-ok}
use anyhop.State.Channels.{require_unreferenced, ensure_channel_target}
use anyhop.State.RuleEdits.{make_rules, with_rules}
use anyhop.State.RuleEdits.Created.{DistinctIds, In-append, make_rules-Made}
use anyhop.State.Rulesets.{next_ruleset_id}
use anyhop.State.Ports.{Host, Holder, channel, entrypoint, used_ports}
use anyhop.State.Ports.Used.{Holds, used_ports_complete}
use anyhop.State.Ports.Fresh.{DistinctPorts}
use anyhop.State.Setup.Merging.{same_reads-DistinctPorts, merge_providers-Merging}
use anyhop.State.Setup.{
  RulesetSpec, Specs, Summary, no_summary, disabling, merge_providers, ensure_targets,
  append_blocks, toggled, require_router_port, with_router_port, merge_setup,
}
use anyhop.State.Setup.Disabled.{spec_off-Unnamed}

-- Ports are distinct, targets live, and the ids of rules distinct.
pub record IsConsistent (state : Data) : Type 0 where
  pub ports : DistinctPorts state
  pub targets : TargetsLive state
  pub ids : DistinctIds state.router.rules

ensure_targets-ok :
    (state : Data) (blocks : List RulesetSpec) (u : Unit {0}) (block : RulesetSpec)
    → ensure_targets state blocks ≡ ok u
    → In block blocks
    → ensure_channel_target state block.target ≡ ok tt
unfolding ensure_targets
ensure_targets-ok state [] u block e m = absurd m
ensure_targets-ok state (b ∷ blocks) u block e m =
    let (v, first, rest) = >>=-eq-ok (ensure_channel_target state b.target) _ e in
    elim m [
      | inl same ↦
          subst (λ (x : RulesetSpec). ensure_channel_target state x.target ≡ ok tt) (sym same) first
      | inr later ↦ ensure_targets-ok state blocks u block rest later
    ]

-- Each row is an old one or one of a block.
abbrev Appended : List RulesetSpec → List Rule → List Rule → Type 0
Appended blocks rules after =
    DistinctIds after
    × ((rule : Rule)
        → In rule after
        → In rule rules
          ⊎ ((block : RulesetSpec) × (In block blocks) × (rule.target ≡ block.target)))

append_blocks-Appended :
    (blocks : List RulesetSpec) (rules : List Rule)
    → DistinctIds rules
    → Appended blocks rules (append_blocks blocks rules)
unfolding append_blocks
append_blocks-Appended [] rules d = (d, λ rule m. inl m)
append_blocks-Appended (block ∷ blocks) rules d =
    let rsid = next_ruleset_id rules in
    let rows = make_rules rules block.target rsid block.name block.matchers [] in
    let (distinct, fields) =
      make_rules-Made rules block.target rsid block.name block.matchers []
        (subst DistinctIds (sym (append-nil rules)) d, λ rule m. absurd m) in
    let (done, from) = append_blocks-Appended blocks (rules ++ rows) distinct in
    (
      done,
      λ rule m. elim (from rule m) [
        | inl old ↦ elim (In-append rules rows rule old) [
          | inl older ↦ inl older
          | inr new ↦ inr (block, inl refl, (fields rule new).0)
        ]
        | inr (other, i, target) ↦ inr (other, inr i, target)
      ],
    )

-- The rules with the blocks of a bundle behind them, where each block has a live target.
with_blocks-IsConsistent :
    (state : Data) (blocks : List RulesetSpec) (u : Unit {0})
    → IsConsistent state
    → ensure_targets state blocks ≡ ok u
    → IsConsistent (with_rules (append_blocks blocks state.router.rules) state)
unfolding with_rules channel_at
with_blocks-IsConsistent state blocks u c e =
    let (distinct, from) = append_blocks-Appended blocks state.router.rules c.ids in
    record {
      ports =
          same_reads-DistinctPorts state
            (with_rules (append_blocks blocks state.router.rules) state) (λ p e. refl) refl c.ports;
      targets = record {
        live = λ rule p d m named. elim (from rule m) [
          | inl old ↦ c.targets.live rule p d old named
          | inr (block, i, target) ↦
              ensure_channel_target-ok state block.target tt p d
                (ensure_targets-ok state blocks u block e i) (ap target_ref (sym target) ∙ named)
        ];
      };
      ids = distinct;
    }

toggled-IsConsistent :
    (state : Data) (killswitch lan_direct : Option Bool)
    → IsConsistent state
    → IsConsistent (toggled killswitch lan_direct state)
unfolding toggled channel_at
toggled-IsConsistent state killswitch lan_direct c = record {
  ports =
      same_reads-DistinctPorts state (toggled killswitch lan_direct state) (λ p e. refl) refl
        c.ports;
  targets = record { live = λ rule p d m named. c.targets.live rule p d m named };
  ids = c.ids;
}

router_port_free :
    (state : Data) (port : ℕ) (u : Unit {0}) (h : Holder)
    → require_router_port state port ≡ ok u
    → port ≢ 0
    → Holds state h port
    → DistinctPorts state
    → h ≡ entrypoint
unfolding require_router_port has_key
router_port_free state port u h e ne held d = elim (nat_eq.dec port state.router.port) [
  | yes own ↦ d.one_holder h entrypoint port ne held (sym own)
  | no moved ↦ absurd (
      ground (
        arith,
        e,
        ne,
        moved,
        used_ports_complete state h port held ne,
        lookup-pop port state.router.port (used_ports state),
      ))
]

moved_router-DistinctPorts :
    (state : Data) (port : ℕ)
    → DistinctPorts state
    → ((h : Holder) → Holds state h port → h ≡ entrypoint)
    → port ≢ 0
    → DistinctPorts
        (record state { router = record state.router { port = port; port_explicit = true } })
unfolding channel_at
moved_router-DistinctPorts state port d alone set = record {
  one_holder = λ h k x ne hh hk. meet h k x ne hh hk;
}
  where
    moved : Data
    moved = record state { router = record state.router { port = port; port_explicit = true } }

    meet : (h k : Holder) (x : ℕ) → x ≢ 0 → Holds moved h x → Holds moved k x → h ≡ k
    meet (channel p c) (channel q e) x ne hh hk =
        d.one_holder (channel p c) (channel q e) x ne hh hk
    meet (channel p c) entrypoint x ne (ch, found, same) hk =
        alone (channel p c) (ch, found, same ∙ sym hk)
    meet entrypoint (channel q e) x ne hh (ch, found, same) =
        sym (alone (channel q e) (ch, found, same ∙ sym hh))
    meet entrypoint entrypoint x ne hh hk = refl

with_router_port-IsConsistent :
    (state : Data) (port : ℕ) (u : Unit {0})
    → IsConsistent state
    → require_router_port state port ≡ ok u
    → IsConsistent (with_router_port port state)
unfolding with_router_port channel_at
with_router_port-IsConsistent state port u c e = elim (nat_eq.dec port 0) [
  | yes unset ↦ subst IsConsistent (ground (arith, unset)) c
  | no set ↦ subst IsConsistent (ground (arith, set)) (record {
    ports =
        moved_router-DistinctPorts state port c.ports
          (λ h held. router_port_free state port u h e set held c.ports) set;
    targets = record { live = λ rule p d m named. c.targets.live rule p d m named };
    ids = c.ids;
  })
]

-- If ports are distinct, targets live and the ids of rules distinct, they still are after a
-- bundle is merged, whatever it adds, changes or switches off.
pub merge_setup-IsConsistent :
    (host : Host) (state after : Data) (providers : Specs) (rulesets : List RulesetSpec)
    (killswitch lan_direct : Option Bool) (router_port : ℕ) (summary : Summary)
    → IsConsistent state
    → merge_setup host state providers rulesets killswitch lan_direct router_port
      ≡ ok (summary, after)
    → IsConsistent after
unfolding merge_setup
merge_setup-IsConsistent host state after providers rulesets killswitch lan_direct router_port
      summary c e =
    let ((noted, merged), walked, e1) =
      >>=-eq-ok
        (require_unreferenced state (disabling state (items providers))
          >> merge_providers host (items providers) no_summary state)
        _ e in
    let (u, unblocked, merging) =
      >>=-eq-ok (require_unreferenced state (disabling state (items providers))) _ walked in
    let m =
      merge_providers-Merging host state state merged (items providers) no_summary noted
        (record { ports = c.ports; targets = c.targets; router_kept = refl })
        (spec_off-Unnamed state u (items providers) c.targets unblocked) merging in
    let (v, checked, e2) = >>=-eq-ok (ensure_targets merged rulesets) _ e1 in
    let ruled =
      toggled killswitch lan_direct
        (with_rules (append_blocks rulesets merged.router.rules) merged) in
    let (w, free, done) = >>=-eq-ok (require_router_port ruled router_port) _ e2 in
    subst IsConsistent (cc) (
      with_router_port-IsConsistent ruled router_port w
        (toggled-IsConsistent _ killswitch lan_direct (
          with_blocks-IsConsistent merged rulesets v
            (record {
              ports = m.ports;
              targets = m.targets;
              ids = subst (λ r. DistinctIds r.rules) (sym m.router_kept) c.ids;
            })
            checked))
        free)
