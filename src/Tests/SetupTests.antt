-- ===== src/Tests/SetupTests.antt =====
-- The witnesses about the operations on whole setups.
use anyhop.State.Setup.{
  toggled, require_router_port, note_provider, names_of, merged, merge_providers, merge_channels,
  merge_channel, is_unchanged, ensure_targets, enabled_at, disabling, append_blocks,
  disabling_channels, wg_of, resolved, spec_channel, with_router_port, ChannelSpec, RulesetSpec,
  Specs, Summary, no_summary, merge_setup,
}
use anyhop.State.Rulesets.{
  ruleset_num, rule_num, or_zero, next_ruleset_id, next_rule_id, highest_ruleset, highest_rule,
}
use anyhop.State.RuleEdits.{with_rules, make_rules}
use anyhop.State.Ports.{
  without_holder, holder_eq, excluding, claim_port, used_ports, try_ephemeral, scan_ports,
  note_providers, note_port, note_channels, next_free_port, Host, start,
}
use anyhop.State.Channels.{
  repointed, port_for, ensure_channel_target, append_rule, add_provider, is_referenced,
  rules_referencing, require_unreferenced, refs_of, provider_refs,
}
use anyhop.Prelude.Dict.{set_default, pop, entries, assign, keys, items, has_key, lookup}
use anyhop.Prelude.Decimal.{read, show}
use anyhop.Prelude.{
  pair_eq, bool_eq, option_eq, contains, ℕ, ◌+◌, Bool, ◌≡◌, refl, Option, none, some, true, false,
  List, [], ◌∷◌, Text, codes, arith, ◌==◌, list_eq, nat_eq, if◌then◌else◌,
}
use anyhop.State.Ids.{partition, target_ref}
use native.Mathlib.Decide.{ℕ_discrete}
use anyhop.State.{set_channel, channels_of, Data, StateError, channel_at}
use anyhop.State.Restore.{
  with_rulesets, restored_rules, restored_rows, old_port, allocate_ports, allocate_port,
  port_before, restored_channels, declare_channels, restored_providers, declare_providers, replaced,
  declare_port, require_distinct, restore_setup,
}
use mathlib.Core.Option
use anyhop.Result.{Result, ok, err}
use anyhop.Rule.{domain_suffix}
use anyhop.State.Setup.Merged.{IsConsistent, merge_setup-IsConsistent}
use anyhop.State.Restore.Replaced.{Restored, restore_setup-Restored}
use anyhop.State.Refresh.{update_channels_wg, clear_reconnect_all}
use anyhop.State.Refresh.Renewed.{quiet, renew, update_channels_wg_lem, clear_reconnect_all_lem}
use anyhop.Tests.Sample.{
  nord, swiss, american, sample, sample-DistinctPorts, sample-TargetsLive, sample-DistinctIds,
}

abbrev host : Host
host = record {
  base = start 2002;
  os_port_free = λ port. true;
  ephemeral = λ attempt. 40000 + attempt;
  ephemeral_pos = λ attempt. omega arith;
}

-- What a call returned, where it did.
abbrev got : {A : Type 0} → A → Result StateError A → A
got other (err e) = other
got other (ok a) = a

abbrev spec : ℕ → Option Bool → ChannelSpec
spec port enabled = record {
  country = codes "Norway";
  city = [];
  label = [];
  server = [];
  port = port;
  wg = some (codes "new");
  enabled = enabled;
}

abbrev proton : Text
proton = codes "proton"

-- It switches a channel off that no rule names, and adds two, one with a declared port.
abbrev bundle : Specs
bundle =
    (nord, (american, spec 0 (some false)) ∷ (codes "wg_no_1", spec 0 none) ∷ [])
    ∷ (proton, (codes "wg_no_1", spec 2007 none) ∷ [])
    ∷ []

abbrev sets : List RulesetSpec
sets =
    record {
      name = codes "News";
      target = codes "proton/wg_no_1";
      matchers = (domain_suffix, codes "example.no") ∷ (domain_suffix, codes "example.com") ∷ [];
    }
    ∷ []

abbrev merge : Summary × Data
merge = got (no_summary, sample) (merge_setup host sample bundle sets (some true) none 2009)

abbrev restored : Data
restored = got sample (restore_setup host sample bundle sets true false 2009)

sample-IsConsistent : IsConsistent sample
sample-IsConsistent = record {
  ports = sample-DistinctPorts;
  targets = sample-TargetsLive;
  ids = sample-DistinctIds;
}

merge_setup-IsConsistent_example : IsConsistent merge.1
unfolding merge_setup require_unreferenced rules_referencing is_referenced target_ref list_eq
    partition nat_eq contains items keys lookup disabling_channels option_eq bool_eq channel_at
    pair_eq read show assign entries has_key pop set_default add_provider append_rule
    ensure_channel_target port_for repointed claim_port excluding holder_eq next_free_port
    note_channels note_port note_providers scan_ports try_ephemeral used_ports without_holder
    make_rules with_rules highest_rule highest_ruleset next_rule_id next_ruleset_id or_zero rule_num
    ruleset_num append_blocks disabling enabled_at ensure_targets is_unchanged merge_channel
    merge_channels merge_providers merged names_of note_provider require_router_port resolved
    spec_channel toggled wg_of with_router_port channels_of set_channel ℕ_discrete
merge_setup-IsConsistent_example =
    merge_setup-IsConsistent host sample merge.1 bundle sets (some true) none 2009 merge.0
      sample-IsConsistent refl

restore_setup-Restored_example : Restored sample bundle sets true false 2009 restored
unfolding restore_setup require_distinct declare_port nat_eq replaced with_router_port has_key
    lookup declare_providers items keys restored_providers list_eq declare_channels
    restored_channels spec_channel port_before show assign entries provider_refs refs_of
    next_free_port note_channels note_port note_providers scan_ports try_ephemeral used_ports
    allocate_port allocate_ports old_port restored_rows restored_rules with_rulesets resolved wg_of
    channel_at channels_of set_channel ℕ_discrete
restore_setup-Restored_example =
    restore_setup-Restored host sample restored bundle sets true false 2009 refl

update_channels_wg_lem_example :
    channel_at (update_channels_wg sample nord ((swiss, codes "new") ∷ [])).1 nord swiss ≡ (
      if nord == nord
      then Option.map
          (λ ch. quiet (renew (lookup swiss ((swiss, codes "new") ∷ [])) ch))
          (channel_at sample nord swiss)
      else channel_at sample nord swiss)
update_channels_wg_lem_example =
    update_channels_wg_lem sample nord nord swiss ((swiss, codes "new") ∷ [])

clear_reconnect_all_lem_example :
    channel_at (clear_reconnect_all sample) nord swiss
    ≡ Option.map quiet (channel_at sample nord swiss)
clear_reconnect_all_lem_example = clear_reconnect_all_lem sample nord swiss
