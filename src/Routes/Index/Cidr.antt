-- ===== src/Routes/Index/Cidr.antt =====
-- Adding a CIDR to the index.
use anyhop.Prelude.{
  ℕ, inl, inr, Option-cases, ◌≡◌, ◌≢◌, true, ◌&&◌, none, some, arith, ◌==◌, list_eq, nat_eq,
  pair_eq, option_eq, bool_eq, if◌then◌else◌,
}
use anyhop.Prelude.Dict.{set_default}
use anyhop.Network.{Network, Parser, subnet_of, family_eq}
use anyhop.Network.Subnet.{subnet_of_iff}
use anyhop.Rule.{ip_cidr, Rule, matcher_eq, is_geo}
use anyhop.Routes.Match.{covers, covers_network}
use anyhop.Routes.Trie.{earliest}
use anyhop.Routes.Index.{CoverIndex, prefixlens, add_length, add_network, probe_networks, add}
use anyhop.Routes.Index.Networks.{holds_it, probe-add}
use anyhop.Routes.Index.Parts.{IsBelow, family, is_covered, FamilyStep}

module _ (P : Parser) (n : ℕ) (a b : Rule) (index : CoverIndex) (h : IsBelow n index) where
  add-parsed :
      (net : Network)
      → a.type ≡ ip_cidr
      → P.network a.value ≡ some net
      → add P n a index ≡ add_network n net index
  unfolding add is_geo
  add-parsed net e f = ground (arith, f)

  add-unparsed : a.type ≡ ip_cidr → P.network a.value ≡ none → add P n a index ≡ index
  unfolding add is_geo
  add-unparsed e f = ground (arith, f)

  covers-cidr :
      a.type ≡ ip_cidr
      → is_covered P a b ≡ (
          b.type == ip_cidr
          && covers_network P (P.network b.value) (P.network a.value) == some true)
  unfolding is_covered covers is_geo
  covers-cidr e = ground arith

  family-parsed :
      (net m : Network)
      → b.type ≡ ip_cidr
      → P.network b.value ≡ some m
      → family P b (add_network n net index)
        ≡ probe_networks m.version m.prefixlen m.address
            (set_default (net.version, (net.prefixlen, net.address)) n index.networks)
            (if m.version == net.version
              then add_length net.prefixlen (prefixlens index m.version)
              else prefixlens index m.version)
            none
  unfolding family is_geo add_network prefixlens
  family-parsed net m e f = ground (arith, f)

  family-probe :
      (m : Network)
      → b.type ≡ ip_cidr
      → P.network b.value ≡ some m
      → family P b index
        ≡ probe_networks m.version m.prefixlen m.address index.networks
            (prefixlens index m.version)
            none
  unfolding family is_geo
  family-probe m e f = ground (arith, f)

  family-elsewhere :
      (net : Network) → b.type ≢ ip_cidr → family P b (add_network n net index) ≡ family P b index
  unfolding family add_network
  family-elsewhere net ne = ground arith

  family-unparsed :
      (net : Network)
      → P.network b.value ≡ none
      → family P b (add_network n net index) ≡ family P b index
  unfolding family add_network
  family-unparsed net ne = ground (arith, ne)

  -- The masked lookup finds the network exactly when it contains the probed one.
  holds_it-covers :
      (net m : Network)
      → P.network a.value ≡ some net
      → P.network b.value ≡ some m
      → holds_it m.version m.prefixlen m.address net.version net.prefixlen net.address n
        ≡ (covers_network P (P.network b.value) (P.network a.value) == some true)
  unfolding holds_it covers_network subnet_of
  holds_it-covers net m e f =
      let within = P.network-IsNetwork b.value m f in
      let around = P.network-IsNetwork a.value net e in
      ground (
        arith,
        e,
        f,
        subnet_of_iff m.version m.prefixlen net.prefixlen m.address net.address within.fits,
      )

  pub network_step : a.type ≡ ip_cidr → FamilyStep P n a b index
  unfolding earliest covers_network
  network_step e = elim (Option-cases (P.network a.value)) [
    | inl bad ↦ rw (add-unparsed e bad, covers-cidr e) (ground (arith, bad))
    | inr (net, good) ↦
        rw (add-parsed net e good, covers-cidr e)
          (elim (Option-cases (P.network b.value)) [
            | inl worse ↦ rw (family-unparsed net worse) (ground (arith, worse, good))
            | inr (m, better) ↦ ground (
              arith,
              family-elsewhere net,
              family-parsed net m,
              family-probe m,
              better,
              holds_it-covers net m good better,
              probe-add m.version m.prefixlen m.address net.version net.prefixlen net.address n
                  index.networks (prefixlens index m.version) none
                  (h.networks net.version net.prefixlen net.address)
                  (h.lengths m.version net.prefixlen),
            )
          ])
  ]
