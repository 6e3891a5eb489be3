-- ===== src/Tests/SignatureTests.antt =====
-- The witnesses about the signature of the configuration.
use mathlib.Core.Option
use anyhop.Prelude.{◌≡◌, Option, none, codes}
use anyhop.State.{Data}
use anyhop.State.Edits.{set_probe, set_reconnect, set_label}
use anyhop.State.Signature.{SignedProviders, SignedRouter, config_signature}
use anyhop.State.Signature.Steady.{config_signature-steady}
use anyhop.Tests.Sample.{nord, swiss, sample}

-- A digest without collisions.
abbrev digest : SignedProviders → Option SignedRouter → SignedProviders × Option SignedRouter
digest providers router = (providers, router)

abbrev labelled : Data
labelled = set_label sample (nord, swiss) (codes "home")

config_signature-steady_example :
    (config_signature digest (set_probe sample (nord, swiss) none) ≡ config_signature digest sample)
    × (config_signature digest (set_reconnect sample (nord, swiss) none)
        ≡ config_signature digest sample)
    × (config_signature digest labelled ≡ config_signature digest sample)
config_signature-steady_example =
    config_signature-steady digest sample (nord, swiss) none none (codes "home")
