-- ===== src/Tests/Sample.antt =====
-- A store with two channels of one provider and two rulesets.
use anyhop.Prelude.{
  ℕ, String, inl, inr, ◌≡◌, ◌≢◌, ◌⊎◌, refl, ap, true, false, none, some, [], ◌∷◌, arith, Text,
  codes, list_eq, nat_eq,
}
use anyhop.Prelude.Dict.{lookup}
use anyhop.Prelude.Lists.{In}
use anyhop.Rule.{Rule, domain_suffix}
use anyhop.State.{Data, Channel, channel_at, channels_of}
use anyhop.State.Ids.{target_ref, partition}
use anyhop.State.Guard.{Live, TargetsLive}
use anyhop.State.RuleEdits.Created.{DistinctIds}
use anyhop.State.Ports.{Holder, channel, entrypoint}
use anyhop.State.Ports.Used.{Holds}
use anyhop.State.Ports.Fresh.{DistinctPorts}

abbrev pub nord : Text
nord = codes "nord"

abbrev pub swiss : Text
swiss = codes "wg_ch_1"

abbrev pub american : Text
american = codes "wg_us_1"

abbrev pub tunnel : String → ℕ → Channel
tunnel country port = record {
  country = codes country;
  city = [];
  port = port;
  port_explicit = false;
  port_home = none;
  label = [];
  server = [];
  wg = codes "key";
  probe = none;
  reconnect = none;
  enabled = true;
}

abbrev pub row : String → String → String → String → Rule
row id value target rsid = record {
  id = codes id;
  type = domain_suffix;
  value = codes value;
  target = codes target;
  ruleset_id = codes rsid;
  ruleset_name = some (codes "set");
}

abbrev pub sample : Data
sample = record {
  providers =
      (
        nord,
        record {
          channels =
              (swiss, tunnel "Switzerland" 2001) ∷ (american, tunnel "United States" 2002) ∷ [];
        },
      )
      ∷ [];
  router = record {
    port = 2000;
    port_explicit = false;
    port_home = none;
    killswitch = false;
    lan_direct = true;
    tun = false;
    rules = row "r1" "example.ch" "nord/wg_ch_1" "rs1" ∷ row "r2" "example.org" "direct" "rs2" ∷ [];
  };
}

-- The channels of the sample, by their refs.
sample-channels :
    (p c : Text) (ch : Channel)
    → channel_at sample p c ≡ some ch
    → (p ≡ nord) × (((c ≡ swiss) × (ch.port ≡ 2001)) ⊎ ((c ≡ american) × (ch.port ≡ 2002)))
unfolding channel_at channels_of lookup
sample-channels p c ch e = ground (arith, e)

pub sample-DistinctPorts : DistinctPorts sample
sample-DistinctPorts = record { one_holder = one }
  where
    one : (h k : Holder) (x : ℕ) → x ≢ 0 → Holds sample h x → Holds sample k x → h ≡ k
    one (channel p c) (channel q e) x ne (ch, f, s) (dh, g, t) =
        ground (arith, s, t, sample-channels p c ch f, sample-channels q e dh g)
    one (channel p c) entrypoint x ne (ch, f, s) t = ground (arith, s, t, sample-channels p c ch f)
    one entrypoint (channel q e) x ne s (dh, g, t) = ground (arith, s, t, sample-channels q e dh g)
    one entrypoint entrypoint x ne s t = refl

pub sample-TargetsLive : TargetsLive sample
unfolding target_ref partition channel_at channels_of lookup
sample-TargetsLive = record { live = live }
  where
    live :
        (rule : Rule) (p c : Text)
        → In rule sample.router.rules
        → target_ref rule.target ≡ some (p, c)
        → Live sample p c
    live rule p c (inl same) e =
        let there : (p ≡ nord) × (c ≡ swiss) =
          ground (arith, ap (λ (r : Rule). target_ref r.target) same, e) in
        (tunnel "Switzerland" 2001, ground (arith, there), refl)
    live rule p c (inr (inl same)) e =
        absurd (ground (arith, ap (λ (r : Rule). target_ref r.target) same, e))
    live rule p c (inr (inr never)) e = absurd never

-- The sample with a second provider, which no rule names.
abbrev pub with_proton : Data
with_proton = record sample {
  providers =
      (codes "proton", record { channels = (swiss, tunnel "Switzerland" 2005) ∷ [] })
      ∷ sample.providers;
}

pub with_proton-TargetsLive : TargetsLive with_proton
unfolding target_ref partition channel_at channels_of lookup
with_proton-TargetsLive = record { live = live }
  where
    live :
        (rule : Rule) (p c : Text)
        → In rule sample.router.rules
        → target_ref rule.target ≡ some (p, c)
        → Live with_proton p c
    live rule p c (inl same) e =
        let there : (p ≡ nord) × (c ≡ swiss) =
          ground (arith, ap (λ (r : Rule). target_ref r.target) same, e) in
        (tunnel "Switzerland" 2001, ground (arith, there), refl)
    live rule p c (inr (inl same)) e =
        absurd (ground (arith, ap (λ (r : Rule). target_ref r.target) same, e))
    live rule p c (inr (inr never)) e = absurd never

pub sample-DistinctIds : DistinctIds sample.router.rules
sample-DistinctIds = (
  (λ other m e. elim m [
    | inl same ↦ ground (arith, e, ap (λ (r : Rule). r.id) same)
    | inr never ↦ absurd never
  ]),
  ((λ other m. absurd m), tt),
)
