-- ===== src/State/Targets/Providers.antt =====
-- About `remove_providers` of state.py.
use mathlib.Core.Path.{subst}
use anyhop.Prelude.{
  ◌≡◌, refl, ◌∙◌, true, ◌||◌, ◌++◌, none, some, List, [], ◌∷◌, arith, Text, ◌==◌, contains, list_eq,
  nat_eq, pair_eq, bool_eq, if◌then◌else◌,
}
use anyhop.Prelude.Dict.{lookup, pop, lookup-pop, keys, In-keys}
use anyhop.Prelude.Lists.{In}
use anyhop.Result.{ok, >>=-eq-ok}
use anyhop.State.{Data, Channel, channels_of, channel_at}
use anyhop.State.Guard.{TargetsLive, require_unreferenced-ok}
use anyhop.State.Targets.{targets_kept}
use anyhop.State.Channels.{
  Ref, require_unreferenced, provider_refs, refs_of, pop_providers, remove_providers,
}

pub contains-append :
    (xs ys : List Ref) (r : Ref) → contains (xs ++ ys) r ≡ (contains xs r || contains ys r)
unfolding contains
contains-append [] ys r = refl
contains-append (x ∷ xs) ys r = ground (arith, contains-append xs ys r)

pub contains-refs_of :
    (p c : Text) (cids : List Text) → In c cids → contains (refs_of p cids) (p, c) ≡ true
unfolding contains refs_of
contains-refs_of p c [] m = absurd m
contains-refs_of p c (d ∷ cids) m = ground (arith, m, contains-refs_of p c cids)

-- The refs that are checked hold each channel of the providers.
pub contains-provider_refs :
    (state : Data) (providers : List Text) (p c : Text) (ch : Channel)
    → contains providers p ≡ true
    → channel_at state p c ≡ some ch
    → contains (provider_refs state providers) (p, c) ≡ true
unfolding contains provider_refs channel_at
contains-provider_refs state [] p c ch h found = cc
contains-provider_refs state (q ∷ providers) p c ch h found =
    rw
      (contains-append (refs_of q (keys (channels_of state q))) (provider_refs state providers)
        (p, c))
      (ground (
        arith,
        h,
        contains-provider_refs state providers p c ch,
        contains-refs_of p c (keys (channels_of state p))
            (In-keys (channels_of state p) c ch found),
      ))

router-pop_providers :
    (state : Data) (providers : List Text) → (pop_providers state providers).router ≡ state.router
unfolding pop_providers
router-pop_providers state [] = refl
router-pop_providers state (p ∷ providers) =
    router-pop_providers (record state { providers = pop p state.providers }) providers

channel_at-pop :
    (state : Data) (p q e : Text)
    → channel_at (record state { providers = pop p state.providers }) q e
      ≡ (if q == p then none else channel_at state q e)
unfolding channel_at lookup
channel_at-pop state p q e = ground (arith, lookup-pop q p state.providers)

channel_at-pop_providers :
    (state : Data) (providers : List Text) (q e : Text)
    → channel_at (pop_providers state providers) q e
      ≡ (if contains providers q then none else channel_at state q e)
unfolding pop_providers contains
channel_at-pop_providers state [] q e = refl
channel_at-pop_providers state (p ∷ providers) q e =
    channel_at-pop_providers (record state { providers = pop p state.providers }) providers q e
    ∙ ground (arith, channel_at-pop state p q e)

-- If targets are live and providers are removed, exactly their channels are gone, and each rule
-- that names a channel still names one that is there and switched on.
pub remove_providers-TargetsLive :
    (state after : Data) (providers : List Text)
    → TargetsLive state
    → remove_providers state providers ≡ ok after
    → TargetsLive after
      × ((q e : Text)
          → channel_at after q e ≡ (if contains providers q then none else channel_at state q e))
unfolding remove_providers
remove_providers-TargetsLive state after providers t h =
    let refs = provider_refs state providers in
    let (u, passed, done) = >>=-eq-ok (require_unreferenced state refs) _ h in
    let same : pop_providers state providers ≡ after = cc in
    subst
      (λ (d : Data).
        TargetsLive d
        × ((q e : Text)
            → channel_at d q e ≡ (if contains providers q then none else channel_at state q e)))
      same
      (
        targets_kept state (pop_providers state providers) t (router-pop_providers state providers)
            (λ rule q e m g (ch, found, up). (
              ch,
              ground (
                arith,
                found,
                channel_at-pop_providers state providers q e,
                require_unreferenced-ok state refs u passed rule q e m g,
                contains-provider_refs state providers q e ch,
              ),
              up,
            )),
        channel_at-pop_providers state providers,
      )
