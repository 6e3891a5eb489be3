-- ===== src/Tests/StateTests.antt =====
-- The theorems on channels, ports and providers at the sample.
use anyhop.State.Edits.{
  with_server, modify, require_revision, claimable, guarded, set_probes, prepare_reconnects,
  finish_reconnect_attempt, set_channel_server, fingerprint,
}
use anyhop.Prelude.Dict.{pop, entries, keys, items, assign, lookup, has_key}
use anyhop.State.Channels.{
  pop_providers, refs_of, provider_refs, drop_channels, is_referenced, rules_referencing,
  require_unreferenced, imported, repointed, new_channel, port_for, require_provider, Ref,
  add_channel, upsert_channel, remove_channels, remove_providers,
}
use anyhop.State.{
  channels_of, Data, Channel, Probe, Reconnect, reconnect_eq, channel_at, set_channel, drop_channel,
}
use anyhop.State.Ids.{partition, target_ref, or_else, numbered, id_base, count_up, next_id, slug}
use native.Mathlib.Decide.{ℕ_discrete}
use anyhop.State.Ports.{
  without_holder, try_ephemeral, holder_eq, excluding, scan_ports, note_channels, note_providers,
  note_port, Holder, Host, start, claim_port, next_free_port, used_ports,
}
use anyhop.Prelude.Decimal.{show}
use anyhop.Prelude.{
  ℕ, ◌+◌, ◌<◌, ◌≤◌, ◌≡◌, ◌⊎◌, refl, Bool, true, false, not, ◌&&◌, Option, none, some, List, [], ◌∷◌,
  arith, Text, codes, contains, leb, ◌==◌, list_eq, nat_eq, pair_eq, option_eq, if◌then◌else◌,
}
use anyhop.Result.{Result, ok, err}
use anyhop.State.Ports.Used.{Holds}
use anyhop.State.Ports.Fresh.{
  DistinctPorts, claim_port_free, next_free_port_free, next_free_port_base,
}
use anyhop.State.Guard.{TargetsLive}
use anyhop.State.Ids.Fresh.{next_id_fresh}
use anyhop.State.Targets.{remove_channels-TargetsLive}
use anyhop.State.Targets.Providers.{remove_providers-TargetsLive}
use anyhop.State.Targets.Added.{Put, Imported, add_channel_lem, upsert_channel_lem}
use anyhop.State.Edits.Observed.{
  Published, set_probes_lem, prepare_reconnects-once, finish_reconnect_attempt-overtaken,
}
use anyhop.Tests.Sample.{
  nord, swiss, american, tunnel, sample, sample-DistinctPorts, sample-TargetsLive, with_proton,
  with_proton-TargetsLive,
}

lower : Text → Text
lower [] = []
lower (c ∷ text) = (if leb b'A' c && leb c b'Z' then c + 32 else c) ∷ lower text

abbrev code_of : Text → Text
code_of country = if country == codes "Switzerland" then codes "ch" else []

abbrev host : Host
host = record {
  base = start 2000;
  os_port_free = λ port. not (port == 2003);
  ephemeral = λ attempt. 40000 + attempt;
  ephemeral_pos = λ attempt. omega arith;
}

abbrev print_of : Bool → ℕ → Text → Text
print_of enabled port wg = port ∷ wg

abbrev revision : Ref → Channel → Text
revision ref ch = ch.server

abbrev healthy : Probe
healthy = record { ok = true; error = none; ip = none; latency_ms = some 12 }

abbrev outcome {ℓ} : {E A : Type ℓ} → Result E A → Option A
outcome (ok a) = some a
outcome (err e) = none

claim_port_free_example :
    (◌≡◌ {A = ℕ} 2004 2004)
    × (0 < 2004)
    × (2004 ≤ 65535)
    × ((h : Holder) → Holds sample h 2004 → ◌≡◌ {A = Option Holder} none (some h))
unfolding claim_port has_key lookup used_ports note_port nat_eq assign note_providers items keys
    list_eq note_channels
claim_port_free_example = claim_port_free sample 2004 2004 none sample-DistinctPorts refl

next_free_port_free_example : (0 < 2004) × ((h : Holder) → ¬ Holds sample h 2004)
unfolding next_free_port scan_ports has_key lookup used_ports note_port nat_eq assign note_providers
    items keys list_eq note_channels
next_free_port_free_example = next_free_port_free host sample 2004 refl

next_free_port_base_example :
    (q : ℕ) × (next_free_port host sample ≡ ok q)
    × (2000 ≤ q)
    × (q ≤ 65535)
    × ((h : Holder) → ¬ Holds sample h q)
    × (host.os_port_free q ≡ true)
    × ((s : ℕ)
        → 2000 ≤ s
        → s < q
        → ((h : Holder) × Holds sample h s) ⊎ (host.os_port_free s ≡ false))
unfolding has_key lookup used_ports note_port nat_eq assign note_providers items keys list_eq
    note_channels next_free_port scan_ports
next_free_port_base_example =
    next_free_port_base host sample 2000 2004 refl (omega arith) (omega arith) (omega arith)
      (next_free_port_free host sample 2004 refl).1 refl

next_id_fresh_example :
    contains
      (swiss ∷ american ∷ [])
      (next_id lower code_of (swiss ∷ american ∷ []) (codes "Switzerland") [])
    ≡ false
next_id_fresh_example = next_id_fresh lower code_of (swiss ∷ american ∷ []) (codes "Switzerland") []

abbrev new_swiss : Channel
new_swiss = record (tunnel "Switzerland" 2004) { wg = codes "new" }

abbrev second : Text
second = codes "wg_ch_2"

add_channel_lem_example :
    DistinctPorts (set_channel nord second new_swiss sample)
    × TargetsLive (set_channel nord second new_swiss sample)
    × (channel_at sample nord second ≡ none)
    × ((ch : Channel) × Put sample (set_channel nord second new_swiss sample) nord second ch
        × (0 < ch.port)
        × (ch.enabled ≡ true)
        × (ch.wg ≡ codes "new"))
unfolding add_channel require_provider lookup list_eq nat_eq port_for next_free_port scan_ports
    has_key used_ports note_port assign note_providers items keys note_channels next_id new_channel
    show entries contains count_up id_base numbered or_else slug claim_port excluding holder_eq
    try_ephemeral without_holder set_channel ℕ_discrete
add_channel_lem_example =
    add_channel_lem host lower code_of sample (set_channel nord second new_swiss sample) nord
      (codes "Switzerland") [] (codes "new") [] [] second 0 sample-DistinctPorts sample-TargetsLive
      refl

abbrev renewed : Channel
renewed = record (tunnel "Japan" 2005) { wg = codes "new"; port_explicit = true }

upsert_channel_lem_example :
    Imported host lower code_of sample
      (set_channel nord swiss renewed sample)
      nord
      swiss
      (codes "new")
      2005
      false
      (set_channel nord swiss renewed sample)
unfolding upsert_channel require_provider lookup list_eq nat_eq slug or_else lower repointed
    claim_port has_key without_holder used_ports note_port assign note_providers items entries keys
    imported new_channel port_for excluding holder_eq next_free_port note_channels scan_ports
    try_ephemeral set_channel ℕ_discrete
upsert_channel_lem_example =
    upsert_channel_lem host lower code_of sample (set_channel nord swiss renewed sample) nord
      (codes "WG-CH-1") (codes "Japan") [] (codes "new") [] 2005 false sample-DistinctPorts
      sample-TargetsLive refl

abbrev without_american : Data
without_american = drop_channel nord american sample

remove_channels-TargetsLive_example :
    TargetsLive without_american
    × ((q e : Text)
        → channel_at without_american q e ≡ (
            if contains {A = Ref} ((nord, american) ∷ []) (q, e)
            then none
            else channel_at sample q e))
unfolding remove_channels require_unreferenced rules_referencing is_referenced target_ref list_eq
    partition nat_eq contains pair_eq drop_channels channel_at lookup
remove_channels-TargetsLive_example =
    remove_channels-TargetsLive sample without_american ((nord, american) ∷ [])
      ((nord, american) ∷ []) sample-TargetsLive refl

remove_providers-TargetsLive_example :
    TargetsLive sample
    × ((q e : Text)
        → channel_at sample q e
          ≡ (if contains (codes "proton" ∷ []) q then none else channel_at with_proton q e))
unfolding remove_providers require_unreferenced rules_referencing is_referenced target_ref list_eq
    partition nat_eq contains provider_refs refs_of keys channels_of lookup pop_providers pop
    pair_eq
remove_providers-TargetsLive_example =
    remove_providers-TargetsLive with_proton sample (codes "proton" ∷ []) with_proton-TargetsLive
      refl

abbrev american_off : Data
american_off =
    set_channel nord american (record (tunnel "United States" 2002) { enabled = false }) sample

abbrev pass : List (Ref × Text × Option Probe)
pass =
    ((nord, swiss), 2001 ∷ codes "key", some healthy)
    ∷ ((nord, american), codes "stale", some healthy)
    ∷ []

set_probes_lem_example :
    (new : Channel) × (channel_at (set_probes print_of pass sample []).1 nord swiss ≡ some new)
    × Published print_of pass (nord, swiss) (tunnel "Switzerland" 2001) new
unfolding channel_at lookup list_eq nat_eq
set_probes_lem_example =
    set_probes_lem print_of pass sample [] nord swiss (tunnel "Switzerland" 2001) refl

abbrev claim : Reconnect
claim = record {
  fails = 3;
  attempts = 1;
  last_at = 100;
  next_at = 130;
  failed = false;
  error = none;
  attempt_nonce = some (codes "n1");
}

abbrev claimed : Data
claimed =
    set_channel nord swiss (record (tunnel "Switzerland" 2001) { reconnect = some claim }) sample

abbrev other_claim : Reconnect
other_claim = record claim { attempt_nonce = some (codes "other") }

prepare_reconnects-once_example :
    prepare_reconnects print_of
      (((nord, swiss), 2001 ∷ codes "key", none, some other_claim) ∷ [])
      claimed
      []
    ≡ ([], claimed)
unfolding prepare_reconnects guarded channel_at lookup list_eq nat_eq claimable fingerprint
    option_eq
prepare_reconnects-once_example =
    prepare_reconnects-once print_of sample claimed nord swiss (2001 ∷ codes "key")
      (2001 ∷ codes "key") none (some claim) (some other_claim) (λ h. cc) refl

abbrev pinned : Data
pinned =
    set_channel nord swiss
      (record (tunnel "Switzerland" 2001) { server = codes "ch7"; country = codes "Switzerland" })
      claimed

finish_reconnect_attempt-overtaken_example :
    finish_reconnect_attempt print_of pinned
      (nord, swiss)
      (2001 ∷ codes "key")
      (codes "n1")
      (some claim)
      (some (codes "other"))
    ≡ (false, pinned)
unfolding set_channel_server require_revision set_channel modify lookup channel_at list_eq nat_eq
    assign with_server
finish_reconnect_attempt-overtaken_example =
    finish_reconnect_attempt-overtaken print_of revision claimed pinned nord swiss (codes "ch7")
      (codes "Switzerland") [] (2001 ∷ codes "key") (codes "n1") none (some (codes "other")) none
      (some claim) refl
