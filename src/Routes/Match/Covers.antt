-- ===== src/Routes/Match/Covers.antt =====
-- What `covers` claims of two rules holds of every destination.
use anyhop.Prelude.{
  ◌≡◌, refl, true, Option, none, some, List, [], ◌∷◌, arith, Text, list_eq, nat_eq,
}
use anyhop.Network.{Address, Network, Parser, IsNetwork, subnet_of, family_eq}
use anyhop.Network.Subnet.{in_network_mono}
use anyhop.Rule.{Rule, matcher_eq, is_geo}
use anyhop.Routes.Domain.{ends_with, dot, domain_suffix_matches}
use anyhop.Routes.Match.{
  Destination, any_in, match_host, match_network, covers_network, match_destination, covers,
}

-- What ends a tail of a text ends the text.
ends_with_trans :
    (d b s : Text) → ends_with d b ≡ true → ends_with b s ≡ true → ends_with d s ≡ true
unfolding ends_with
ends_with_trans [] b s h k = ground (arith, k)
ends_with_trans (c ∷ d) b s h k = ground (arith, ends_with_trans d b s, k)

-- A subdomain of a subdomain is a subdomain.
pub domain_suffix_matches_trans :
    (a b d : Text)
    → domain_suffix_matches a b ≡ true
    → domain_suffix_matches b d ≡ true
    → domain_suffix_matches a d ≡ true
unfolding domain_suffix_matches ends_with
domain_suffix_matches_trans a b d h k = ground (arith, ends_with_trans d (dot ∷ b) (dot ∷ a))

any_in_mono :
    (inner outer : Network)
    → IsNetwork inner
    → IsNetwork outer
    → inner.version ≡ outer.version
    → subnet_of inner outer ≡ true
    → (ips : List Address) → any_in inner ips ≡ true
    → any_in outer ips ≡ true
unfolding any_in
any_in_mono inner outer hi ho same sub [] h = h
any_in_mono inner outer hi ho same sub (ip ∷ ips) h = ground (
  arith,
  in_network_mono inner outer ip hi ho same sub,
  any_in_mono inner outer hi ho same sub ips,
)

module _ (P : Parser) where
  host_mono :
      (a b : Text) (o : Option Text)
      → domain_suffix_matches a b ≡ true
      → match_host (domain_suffix_matches b) o ≡ true
      → match_host (domain_suffix_matches a) o ≡ true
  unfolding match_host
  host_mono a b none h k = k
  host_mono a b (some d) h k = domain_suffix_matches_trans a b d h k

  network_mono :
      (s t : Text) (ips : List Address)
      → covers_network P (P.network t) (P.network s) ≡ some true
      → match_network (P.network t) ips ≡ true
      → match_network (P.network s) ips ≡ true
  unfolding covers_network match_network
  network_mono s t ips h k = go (P.network s) (P.network t) refl refl h k
    where
      go :
          (outer inner : Option Network)
          → P.network s ≡ outer
          → P.network t ≡ inner
          → covers_network P inner outer ≡ some true
          → match_network inner ips ≡ true
          → match_network outer ips ≡ true
      go none none p q h k = cc
      go none (some n) p q h k = cc
      go (some m) none p q h k = cc
      go (some m) (some n) p q h k = ground (
        arith,
        any_in_mono n m (P.network-IsNetwork t n q) (P.network-IsNetwork s m p),
        any_in_mono n m (P.network-IsNetwork t n q) (P.network-IsNetwork s m p) (ground arith)
            (ground arith) ips k,
      )

  -- Whatever the covered rule matches, the covering rule matches too.
  pub covers_sound :
      (a b : Rule) (d : Destination)
      → covers P a b ≡ some true
      → match_destination P b d ≡ true
      → match_destination P a d ≡ true
  unfolding covers match_destination is_geo
  covers_sound a b d h k =
      ground (arith, host_mono a.value b.value d.host, network_mono a.value b.value d.ips)
