-- ===== src/State/Ports/Kept.antt =====
-- About the writes of a channel with another port, in the store of state.py.
use mathlib.Core.Path.{subst}
use anyhop.Prelude.{
  ℕ, inl, inr, Bool-cases, ◌≡◌, ◌≢◌, ◌⊎◌, sym, ◌∙◌, ◌&&◌, some, arith, Text, ◌==◌, list_eq, nat_eq,
}
use anyhop.State.{Data, Channel, set_channel}
use anyhop.State.Access.{has_provider, channel_at-set_channel, router-set_channel}
use anyhop.State.Ports.{Holder, channel, entrypoint}
use anyhop.State.Ports.Used.{Holds}
use anyhop.State.Ports.Fresh.{DistinctPorts}

pub Holds-set_channel :
    (state : Data) (p c : Text) (ch : Channel) (h : Holder) (x : ℕ)
    → Holds (set_channel p c ch state) h x
    → ((h ≡ channel p c) × (ch.port ≡ x)) ⊎ Holds state h x
Holds-set_channel state p c ch entrypoint x held =
    inr (subst (λ r. r.port ≡ x) (router-set_channel p c ch state) held)
Holds-set_channel state p c ch (channel q e) x (other, found, same) =
    elim (Bool-cases (has_provider state p && p == q && c == e)) [
      | inl hit ↦
          let it : some ch ≡ some other =
            ground (arith, hit, found, channel_at-set_channel state p c q e ch) in
          let here : (p ≡ q) × (c ≡ e) = ground (arith, hit) in inl (cc (here.0, here.1), cc)
      | inr miss ↦
          inr (other, ground (arith, miss, found, channel_at-set_channel state p c q e ch), same)
    ]

pub set_channel-DistinctPorts :
    (state : Data) (p c : Text) (ch : Channel)
    → DistinctPorts state
    → ((h : Holder) → ch.port ≢ 0 → Holds state h ch.port → h ≡ channel p c)
    → DistinctPorts (set_channel p c ch state)
set_channel-DistinctPorts state p c ch d own = record {
  one_holder = λ h k x ne hh hk. elim (Holds-set_channel state p c ch h x hh) [
    | inl (mine, port) ↦ elim (Holds-set_channel state p c ch k x hk) [
      | inl (yours, same) ↦ mine ∙ sym yours
      | inr old ↦ mine ∙ sym (from k x port ne old)
    ]
    | inr older ↦ elim (Holds-set_channel state p c ch k x hk) [
      | inl (yours, port) ↦ from h x port ne older ∙ sym yours
      | inr old ↦ d.one_holder h k x ne older old
    ]
  ];
}
  where
    from : (h : Holder) (x : ℕ) → ch.port ≡ x → x ≢ 0 → Holds state h x → h ≡ channel p c
    from h x port ne held = own h (λ z. ne (sym port ∙ z)) (subst (Holds state h) (sym port) held)
