-- ===== src/State/Channels.antt =====
-- The operations of the `Store` of state.py on providers and channels. Each is the body of its
-- transaction: an error leaves the file as it was, a result comes with the data that is written.
use anyhop.Prelude.{
  ℕ, Bool, true, false, not, ◌&&◌, ◌||◌, none, some, List, [], ◌∷◌, ◌++◌, Text, ◌==◌, contains,
  list_eq, nat_eq, bool_eq, pair_eq, option_eq, if◌then◌else◌,
}
use anyhop.Prelude.Dict.{Dict, lookup, assign, set_default, pop, keys}
use anyhop.Result.{Result, ok, err, ◌>>=◌, ◌>>◌}
use anyhop.Rule.{Rule}
use anyhop.State.{
  Data, Provider, Channel, StateError, referenced, provider_missing, no_channel, channel_disabled,
  channels_of, channel_at, set_channel, drop_channel,
}
use anyhop.State.Ids.{target_ref, next_id, slug}
use anyhop.State.Ports.{channel, Host, claim_port, next_free_port}

abbrev pub Ref : Type 0
Ref = Text × Text

abbrev pub Outcome : Type 0 → Type 0
Outcome A = Result StateError (A × Data)

-- `out.setdefault(key, []).append(rule)`
unfoldable pub append_rule : Text → Rule → Dict Text (List Rule) → Dict Text (List Rule)
append_rule key rule out = elim (lookup key out) [
  | none ↦ assign key (rule ∷ []) out
  | some rules ↦ assign key (rules ++ rule ∷ []) out
]

unfoldable pub is_referenced : List Ref → Rule → Bool
is_referenced refs rule = elim (target_ref rule.target) [
  | none ↦ false
  | some ref ↦ contains refs ref
]

-- `f"{provider}/{cid}"` of a target that names a channel is the target.
unfoldable pub rules_referencing :
    List Rule → List Ref → Dict Text (List Rule) → Dict Text (List Rule)
rules_referencing [] refs out = out
rules_referencing (rule ∷ rules) refs out =
    rules_referencing rules refs
      (if is_referenced refs rule then append_rule rule.target rule out else out)

-- `if blockers: raise ReferencedError(blockers)`
unfoldable pub require_unreferenced : Data → List Ref → Result StateError (Unit {0})
require_unreferenced state refs = elim (rules_referencing state.router.rules refs []) [
  | [] ↦ ok tt
  | b ∷ blockers ↦ err (referenced (b ∷ blockers))
]

unfoldable pub require_provider : Data → Text → Result StateError Provider
require_provider state provider = elim (lookup provider state.providers) [
  | none ↦ err (provider_missing provider)
  | some prov ↦ ok prov
]

unfoldable pub ensure_channel_target : Data → Text → Result StateError (Unit {0})
ensure_channel_target state target = elim (target_ref target) [
  | none ↦ ok tt
  | some (provider, cid) ↦ elim (channel_at state provider cid) [
    | none ↦ err (no_channel target)
    | some ch ↦ if ch.enabled then ok tt else err (channel_disabled target)
  ]
]

unfoldable pub add_provider : Data → Text → Data
add_provider state provider = record state {
  providers = set_default provider (record { channels = [] }) state.providers;
}

-- The refs of the channels of providers, in the order of a walk.
unfoldable pub refs_of : Text → List Text → List Ref
refs_of provider [] = []
refs_of provider (cid ∷ cids) = (provider, cid) ∷ refs_of provider cids

unfoldable pub provider_refs : Data → List Text → List Ref
provider_refs state [] = []
provider_refs state (provider ∷ providers) =
    refs_of provider (keys (channels_of state provider)) ++ provider_refs state providers

unfoldable pub pop_providers : Data → List Text → Data
pop_providers state [] = state
pop_providers state (provider ∷ providers) =
    pop_providers (record state { providers = pop provider state.providers }) providers

-- `remove_providers`, without the counts that it reports.
unfoldable pub remove_providers : Data → List Text → Result StateError Data
remove_providers state providers =
    require_unreferenced state (provider_refs state providers) >> ok (pop_providers state providers)

-- `_claim_port(data, port) if port else _next_free_port(data)`
unfoldable pub port_for : Host → Data → ℕ → Result StateError ℕ
port_for host state port =
    if port == 0 then next_free_port host state else claim_port state port none

-- The record of a channel that is added.
unfoldable pub new_channel : Text → Text → ℕ → Bool → Text → Text → Text → Channel
new_channel country city port explicit label server wg = record {
  country = country;
  city = city;
  port = port;
  port_explicit = explicit;
  port_home = none;
  label = label;
  server = server;
  wg = wg;
  probe = none;
  reconnect = none;
  enabled = true;
}

-- What an import leaves of the record of its file.
unfoldable pub imported : Text → Text → ℕ → Bool → Text → Text → Channel → Channel
imported country city port explicit label wg ch = record ch {
  country = country;
  city = city;
  wg = wg;
  port = port;
  port_explicit = ch.port_explicit || explicit;
  label = if label == [] then ch.label else label;
  reconnect = none;
}

unfoldable pub add_channel :
    Host
    → (Text → Text)
    → (Text → Text)
    → Data
    → Text
    → Text
    → Text
    → Text
    → Text
    → ℕ
    → Text
    → Outcome Text
add_channel host lower country_code state provider country city wg label port server =
    require_provider state provider >>= λ prov.
    let cid = next_id lower country_code (keys prov.channels) country city in
    port_for host state port >>= λ claimed. ok (
      cid,
      set_channel provider cid (new_channel country city claimed (not (port == 0)) label server wg)
          state,
    )

-- The port of a channel that is imported again.
unfoldable pub repointed : Data → Text → Text → Channel → ℕ → Result StateError ℕ
repointed state provider cid ch port =
    if not (port == 0) && not (port == ch.port)
    then claim_port state port (some (channel provider cid))
    else ok ch.port

unfoldable pub upsert_channel :
    Host → (Text → Text) → Data → Text → Text → Text → Text → Text → Text → ℕ → Outcome Bool
upsert_channel host lower state provider filename country city wg label port =
    let cid = slug lower filename in
    require_provider state provider >>= λ prov. elim (lookup cid prov.channels) [
      | none ↦ port_for host state port >>= λ claimed. ok (
        true,
        set_channel provider cid (new_channel country city claimed (not (port == 0)) label [] wg)
            state,
      )
      | some ch ↦ repointed state provider cid ch port >>= λ claimed. ok (
        false,
        set_channel provider cid (imported country city claimed (not (port == 0)) label wg ch)
            state,
      )
    ]

unfoldable pub drop_channels : Data → List Ref → List Ref → List Ref × Data
drop_channels state [] removed = (removed, state)
drop_channels state ((provider, cid) ∷ refs) removed =
    drop_channels (drop_channel provider cid state) refs (elim (channel_at state provider cid) [
      | none ↦ removed
      | some _ ↦ removed ++ (provider, cid) ∷ []
    ])

unfoldable pub remove_channels : Data → List Ref → Outcome (List Ref)
remove_channels state refs = require_unreferenced state refs >> ok (drop_channels state refs [])
