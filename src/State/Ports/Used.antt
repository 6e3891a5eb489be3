-- ===== src/State/Ports/Used.antt =====
-- About `_used_ports` of state.py: the ports that it lists.
use mathlib.Core.Path.{subst}
use anyhop.Prelude.{
  ℕ, inl, inr, Option-cases, ◌≡◌, ◌≢◌, refl, sym, ap, ◌∙◌, ◌⊎◌, true, some, List, [], ◌∷◌, arith,
  Text, ◌==◌, list_eq, nat_eq, if◌then◌else◌,
}
use anyhop.Prelude.Dict.{Dict, lookup, lookup-assign, items, items_sound, items_complete, has_key}
use anyhop.Prelude.Lists.{In}
use anyhop.State.{Data, Provider, Channel, channel_at}
use anyhop.State.Ports.{
  Holder, channel, entrypoint, note_port, note_channels, note_providers, used_ports,
}

-- Whether the holder has the port, by a read of its record.
abbrev pub Holds : Data → Holder → ℕ → Type 0
Holds state (channel p c) port =
    (ch : Channel) × (channel_at state p c ≡ some ch) × (ch.port ≡ port)
Holds state entrypoint port = state.router.port ≡ port

lookup-note_port :
    (x port : ℕ) (h : Holder) (used : Dict ℕ Holder)
    → port ≢ 0
    → lookup x (note_port port h used) ≡ (if port == x then some h else lookup x used)
unfolding note_port
lookup-note_port x port h used ne = ground (arith, lookup-assign x port h used)

note_port-keeps :
    (x port : ℕ) (h : Holder) (used : Dict ℕ Holder)
    → has_key x used ≡ true
    → has_key x (note_port port h used) ≡ true
unfolding note_port has_key
note_port-keeps x port h used k = ground (arith, lookup-assign x port h used)

note_port-adds :
    (port : ℕ) (h : Holder) (used : Dict ℕ Holder)
    → port ≢ 0
    → has_key port (note_port port h used) ≡ true
unfolding note_port has_key
note_port-adds port h used ne = ground (arith, lookup-assign port port h used)

note_port_sound :
    (x port : ℕ) (h holder : Holder) (used : Dict ℕ Holder)
    → lookup x (note_port port holder used) ≡ some h
    → (lookup x used ≡ some h) ⊎ ((port ≡ x) × (h ≡ holder))
unfolding note_port
note_port_sound x port h holder used e = ground (arith, e, lookup-assign x port holder used)

note_channels-keeps :
    (x : ℕ) (p : Text) (l : List (Text × Channel)) (used : Dict ℕ Holder)
    → has_key x used ≡ true
    → has_key x (note_channels p l used) ≡ true
unfolding note_channels
note_channels-keeps x p [] used k = k
note_channels-keeps x p ((c, ch) ∷ l) used k =
    note_channels-keeps x p l (note_port ch.port (channel p c) used)
      (note_port-keeps x ch.port (channel p c) used k)

note_channels-adds :
    (p c : Text) (ch : Channel) (l : List (Text × Channel)) (used : Dict ℕ Holder)
    → In (c, ch) l
    → ch.port ≢ 0
    → has_key ch.port (note_channels p l used) ≡ true
unfolding note_channels
note_channels-adds p c ch [] used m ne = absurd m
note_channels-adds p c ch ((d, dh) ∷ l) used (inl e) ne =
    let same : dh.port ≡ ch.port = ap (λ (t : Text × Channel). t.1.port) (sym e) in
    subst (λ (n : ℕ). has_key n (note_channels p l (note_port dh.port (channel p d) used)) ≡ true)
      same
      (note_channels-keeps dh.port p l (note_port dh.port (channel p d) used)
        (note_port-adds dh.port (channel p d) used (λ z. ne (sym same ∙ z))))
note_channels-adds p c ch ((d, dh) ∷ l) used (inr m) ne =
    note_channels-adds p c ch l (note_port dh.port (channel p d) used) m ne

note_channels_sound :
    (x : ℕ) (h : Holder) (p : Text) (l : List (Text × Channel)) (used : Dict ℕ Holder)
    → lookup x (note_channels p l used) ≡ some h
    → (lookup x used ≡ some h)
      ⊎ ((c : Text) × (ch : Channel) × (In (c, ch) l) × (ch.port ≡ x) × (h ≡ channel p c))
unfolding note_channels
note_channels_sound x h p [] used e = inl e
note_channels_sound x h p ((c, ch) ∷ l) used e =
    elim (note_channels_sound x h p l (note_port ch.port (channel p c) used) e) [
      | inl old ↦ elim (note_port_sound x ch.port h (channel p c) used old) [
        | inl older ↦ inl older
        | inr (same, mine) ↦ inr (c, ch, inl refl, same, mine)
      ]
      | inr (d, dh, m, q, r) ↦ inr (d, dh, inr m, q, r)
    ]

note_providers-keeps :
    (x : ℕ) (l : List (Text × Provider)) (used : Dict ℕ Holder)
    → has_key x used ≡ true
    → has_key x (note_providers l used) ≡ true
unfolding note_providers
note_providers-keeps x [] used k = k
note_providers-keeps x ((p, prov) ∷ l) used k =
    note_providers-keeps x l (note_channels p (items prov.channels) used)
      (note_channels-keeps x p (items prov.channels) used k)

note_providers-adds :
    (p c : Text) (prov : Provider) (ch : Channel) (l : List (Text × Provider))
    (used : Dict ℕ Holder)
    → In (p, prov) l
    → In (c, ch) (items prov.channels)
    → ch.port ≢ 0
    → has_key ch.port (note_providers l used) ≡ true
unfolding note_providers
note_providers-adds p c prov ch [] used m k ne = absurd m
note_providers-adds p c prov ch ((q, other) ∷ l) used (inl e) k ne =
    let same : In (c, ch) (items other.channels) =
      subst (λ (t : Text × Provider). In (c, ch) (items t.1.channels)) e k in
    note_providers-keeps ch.port l (note_channels q (items other.channels) used)
      (note_channels-adds q c ch (items other.channels) used same ne)
note_providers-adds p c prov ch ((q, other) ∷ l) used (inr m) k ne =
    note_providers-adds p c prov ch l (note_channels q (items other.channels) used) m k ne

note_providers_sound :
    (x : ℕ) (h : Holder) (l : List (Text × Provider)) (used : Dict ℕ Holder)
    → lookup x (note_providers l used) ≡ some h
    → (lookup x used ≡ some h)
      ⊎ ((p : Text) × (prov : Provider) × (c : Text) × (ch : Channel) × (In (p, prov) l)
          × (In (c, ch) (items prov.channels))
          × (ch.port ≡ x)
          × (h ≡ channel p c))
unfolding note_providers
note_providers_sound x h [] used e = inl e
note_providers_sound x h ((p, prov) ∷ l) used e =
    elim (note_providers_sound x h l (note_channels p (items prov.channels) used) e) [
      | inl old ↦ elim (note_channels_sound x h p (items prov.channels) used old) [
        | inl older ↦ inl older
        | inr (c, ch, m, q, r) ↦ inr (p, prov, c, ch, inl refl, m, q, r)
      ]
      | inr (q, other, c, ch, m, k, same, mine) ↦ inr (q, other, c, ch, inr m, k, same, mine)
    ]

pub channel_at-items :
    (state : Data) (p c : Text) (ch : Channel)
    → channel_at state p c ≡ some ch
    → (prov : Provider) × (In (p, prov) (items state.providers))
      × (In (c, ch) (items prov.channels))
unfolding channel_at lookup
channel_at-items state p c ch h = elim (Option-cases (lookup p state.providers)) [
  | inl absent ↦ absurd (ground (arith, absent, h))
  | inr (prov, found) ↦ (
    prov,
    items_complete state.providers p prov found,
    items_complete prov.channels c ch (ground (arith, found, h)),
  )
]

pub items-channel_at :
    (state : Data) (p c : Text) (prov : Provider) (ch : Channel)
    → In (p, prov) (items state.providers)
    → In (c, ch) (items prov.channels)
    → channel_at state p c ≡ some ch
unfolding channel_at
items-channel_at state p c prov ch m k =
    ground (arith, items_sound state.providers p prov m, items_sound prov.channels c ch k)

-- A port that is listed is held by the listed holder.
pub used_ports_sound :
    (state : Data) (x : ℕ) (h : Holder) → lookup x (used_ports state) ≡ some h → Holds state h x
unfolding used_ports lookup
used_ports_sound state x h e = elim (note_port_sound x state.router.port h entrypoint _ e) [
  | inl old ↦ elim (note_providers_sound x h (items state.providers) [] old) [
    | inl older ↦ cc
    | inr (p, prov, c, ch, m, k, same, mine) ↦
        subst (λ (o : Holder). Holds state o x) (sym mine)
          (ch, items-channel_at state p c prov ch m k, same)
  ]
  | inr (same, mine) ↦ subst (λ (o : Holder). Holds state o x) (sym mine) same
]

-- A held port other than 0 is listed.
pub used_ports_complete :
    (state : Data) (h : Holder) (x : ℕ)
    → Holds state h x
    → x ≢ 0
    → has_key x (used_ports state) ≡ true
unfolding used_ports
used_ports_complete state (channel p c) x (ch, found, same) ne =
    let (prov, m, k) = channel_at-items state p c ch found in
    note_port-keeps x state.router.port entrypoint _ (
      subst (λ (n : ℕ). has_key n (note_providers (items state.providers) []) ≡ true) same
        (note_providers-adds p c prov ch (items state.providers) [] m k (λ z. ne (sym same ∙ z))))
used_ports_complete state entrypoint x same ne =
    subst
      (λ (n : ℕ).
        has_key n
          (note_port state.router.port entrypoint (note_providers (items state.providers) []))
        ≡ true)
      same (note_port-adds state.router.port entrypoint _ (λ z. ne (sym same ∙ z)))
