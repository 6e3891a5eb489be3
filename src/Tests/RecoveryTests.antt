-- ===== src/Tests/RecoveryTests.antt =====
-- Ports that move away and come back at the sample.
use native.Mathlib.Decide.{ℕ_discrete}
use anyhop.State.Recovery.{
  renumber_router, reallocate_router, moved_channel, move_router, move_channel, home_or, all_refs,
  reallocate_channels, Moves, reallocate_channel_ports, restore_home_ports,
}
use anyhop.State.Ports.{
  try_ephemeral, note_providers, note_channels, note_port, used_ports, scan_ports, next_free_port,
  channel, Host, start,
}
use anyhop.Prelude.Dict.{items, entries, assign, has_key, lookup, keys}
use anyhop.Prelude.{contains, list_eq, ℕ, ◌+◌, refl, true, some, [], ◌∷◌, arith, nat_eq}
use anyhop.State.{channel_at, channels_of, Data, set_channel}
use anyhop.State.Channels.{refs_of, provider_refs}
use anyhop.State.Ports.Fresh.{DistinctPorts, next_free_port_free}
use anyhop.State.Ports.Kept.{set_channel-DistinctPorts}
use anyhop.State.Recovery.Moved.{Recovered, reallocate_channel_ports-Recovered}
use anyhop.State.Recovery.Restored.{restore_home_ports-DistinctPorts}
use anyhop.Tests.Sample.{nord, swiss, tunnel, sample, sample-DistinctPorts}

abbrev host : ℕ → Host
host n = record {
  base = start 2002;
  os_port_free = λ port. true;
  ephemeral = λ attempt. 40000 + attempt;
  ephemeral_pos = λ attempt. omega arith;
}

abbrev drifted : Data
drifted =
    set_channel nord swiss (record (tunnel "Switzerland" 2003) { port_home = some 2001 }) sample

abbrev moves : Moves
moves = (record { holder = channel nord swiss; old = 2001; new = 2003 } ∷ [], [], drifted)

reallocate_channel_ports-Recovered_example : Recovered sample drifted
unfolding reallocate_channel_ports reallocate_channels all_refs provider_refs keys refs_of
    channels_of lookup list_eq nat_eq channel_at contains next_free_port scan_ports has_key
    used_ports note_port assign entries items note_channels note_providers try_ephemeral home_or
    move_channel move_router moved_channel reallocate_router renumber_router set_channel ℕ_discrete
reallocate_channel_ports-Recovered_example =
    reallocate_channel_ports-Recovered (λ refs. refs) host sample (2001 ∷ []) moves
      sample-DistinctPorts refl

drifted-DistinctPorts : DistinctPorts drifted
unfolding next_free_port scan_ports has_key lookup used_ports note_port nat_eq assign note_providers
    items keys list_eq note_channels
drifted-DistinctPorts =
    set_channel-DistinctPorts sample nord swiss
      (record (tunnel "Switzerland" 2003) { port_home = some 2001 }) sample-DistinctPorts
      (λ h ne held. absurd ((next_free_port_free (host 2003) sample 2003 refl).1 h held))

-- The channel moves back from 2003 to 2001.
restore_home_ports-DistinctPorts_example :
    DistinctPorts (restore_home_ports (λ refs. refs) (λ port. true) drifted).1
restore_home_ports-DistinctPorts_example =
    restore_home_ports-DistinctPorts (λ refs. refs) (λ port. true) drifted drifted-DistinctPorts
