-- ===== src/State/Restore/Declared.antt =====
-- About the duplicate check of `restore_setup` of state.py.
use mathlib.Core.Path.{subst}
use anyhop.Prelude.{
  ℕ, inl, inr, ◌≡◌, ◌≢◌, sym, ◌∙◌, some, List, [], ◌∷◌, arith, Text, list_eq, nat_eq,
}
use anyhop.Prelude.Dict.{Dict, lookup, lookup-assign, items, has_key}
use anyhop.Prelude.Lists.{In}
use anyhop.Result.{ok, >>=-eq-ok}
use anyhop.State.{Data, Provider, Channel}
use anyhop.State.Ports.{Holder, channel, entrypoint}
use anyhop.State.Ports.Used.{Holds, channel_at-items}
use anyhop.State.Ports.Fresh.{DistinctPorts}
use anyhop.State.Restore.{declare_port, declare_channels, declare_providers, require_distinct}

-- The later dict has the entries of the earlier one.
abbrev Extends : Dict ℕ Holder → Dict ℕ Holder → Type 0
Extends seen after = (x : ℕ) (h : Holder) → lookup x seen ≡ some h → lookup x after ≡ some h

declare_port_lem :
    (holder : Holder) (port : ℕ) (seen after : Dict ℕ Holder)
    → declare_port holder port seen ≡ ok after
    → Extends seen after × (port ≢ 0 → lookup port after ≡ some holder)
unfolding declare_port has_key
declare_port_lem holder port seen after e = (
  (λ x h found. ground (arith, e, found, lookup-assign x port holder seen)),
  λ ne. ground (arith, e, ne, lookup-assign port port holder seen),
)

declare_channels_lem :
    (p : Text) (l : List (Text × Channel)) (seen after : Dict ℕ Holder)
    → declare_channels p l seen ≡ ok after
    → Extends seen after
      × ((c : Text) (ch : Channel)
          → In (c, ch) l
          → ch.port ≢ 0
          → lookup ch.port after ≡ some (channel p c))
unfolding declare_channels
declare_channels_lem p [] seen after e = ((λ x h found. cc (e, found)), λ c ch m. absurd m)
declare_channels_lem p ((d, dh) ∷ l) seen after e =
    let (next, first, rest) = >>=-eq-ok (declare_port (channel p d) dh.port seen) _ e in
    let (grown, mine) = declare_port_lem (channel p d) dh.port seen next first in
    let (kept, others) = declare_channels_lem p l next after rest in
    (
      (λ x h found. kept x h (grown x h found)),
      λ c ch m ne. elim m [
        | inl same ↦
            let at : lookup dh.port after ≡ some (channel p d) =
              kept dh.port (channel p d)
                (mine (subst (λ (t : Text × Channel). t.1.port ≢ 0) same ne)) in
            subst (λ (t : Text × Channel). lookup t.1.port after ≡ some (channel p t.0)) (sym same)
              at
        | inr later ↦ others c ch later ne
      ],
    )

declare_providers_lem :
    (l : List (Text × Provider)) (seen after : Dict ℕ Holder)
    → declare_providers l seen ≡ ok after
    → Extends seen after
      × ((p c : Text) (prov : Provider) (ch : Channel)
          → In (p, prov) l
          → In (c, ch) (items prov.channels)
          → ch.port ≢ 0
          → lookup ch.port after ≡ some (channel p c))
unfolding declare_providers
declare_providers_lem [] seen after e = ((λ x h found. cc (e, found)), λ p c prov ch m. absurd m)
declare_providers_lem ((q, other) ∷ l) seen after e =
    let (next, first, rest) = >>=-eq-ok (declare_channels q (items other.channels) seen) _ e in
    let (grown, mine) = declare_channels_lem q (items other.channels) seen next first in
    let (kept, others) = declare_providers_lem l next after rest in
    (
      (λ x h found. kept x h (grown x h found)),
      λ p c prov ch m k ne. elim m [
        | inl same ↦
            let held : In (c, ch) (items other.channels) =
              subst (λ (t : Text × Provider). In (c, ch) (items t.1.channels)) same k in
            subst (λ (t : Text × Provider). lookup ch.port after ≡ some (channel t.0 c)) (sym same)
              (kept ch.port (channel q c) (mine c ch held ne))
        | inr later ↦ others p c prov ch later k ne
      ],
    )

-- What passes the check has a port for one holder each.
pub require_distinct-DistinctPorts :
    (state : Data) (seen : Dict ℕ Holder) → require_distinct state ≡ ok seen → DistinctPorts state
unfolding require_distinct
require_distinct-DistinctPorts state seen e =
    let (first, own, rest) = >>=-eq-ok (declare_port entrypoint state.router.port []) _ e in
    let (grown, mine) = declare_port_lem entrypoint state.router.port [] first own in
    let (kept, others) = declare_providers_lem (items state.providers) first seen rest in
    record {
      one_holder = λ h k x ne hh hk.
          let a : lookup x seen ≡ some h = noted first mine kept others h x ne hh in
          let b : lookup x seen ≡ some k = noted first mine kept others k x ne hk in cc;
    }
  where
    noted :
        (first : Dict ℕ Holder)
        → (state.router.port ≢ 0 → lookup state.router.port first ≡ some entrypoint)
        → Extends first seen
        → ((p c : Text) (prov : Provider) (ch : Channel)
            → In (p, prov) (items state.providers)
            → In (c, ch) (items prov.channels)
            → ch.port ≢ 0
            → lookup ch.port seen ≡ some (channel p c))
        → (h : Holder) (x : ℕ) → x ≢ 0
        → Holds state h x
        → lookup x seen ≡ some h
    noted first mine kept others (channel p c) x ne (ch, found, same) =
        let (prov, i, j) = channel_at-items state p c ch found in
        subst (λ (n : ℕ). lookup n seen ≡ some (channel p c)) same
          (others p c prov ch i j (λ z. ne (sym same ∙ z)))
    noted first mine kept others entrypoint x ne same =
        subst (λ (n : ℕ). lookup n seen ≡ some entrypoint) same
          (kept state.router.port entrypoint (mine (λ z. ne (sym same ∙ z))))
