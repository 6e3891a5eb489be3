-- ===== src/State/Ports/Fresh.antt =====
-- About `_claim_port` and `_next_free_port` of state.py: which ports they hand out.
use mathlib.Core.Path.{subst}
use anyhop.Prelude.{
  ℕ, zero, suc, ◌+◌, ◌-◌, ◌<◌, ◌≤◌, inl, inr, Option-cases, Bool-cases, ◌≡◌, ◌≢◌, refl, sym, ap,
  ◌∙◌, ◌⊎◌, Bool, true, false, not, ◌&&◌, Option, none, some, [], ◌∷◌, arith, ltb, leb, list_eq,
  nat_eq,
}
use anyhop.Prelude.Dict.{Dict, lookup, has_key}
use anyhop.Result.{ok}
use anyhop.State.{Data}
use anyhop.State.Ports.{
  Holder, holder_eq, used_ports, without_holder, excluding, claim_port, PortBase, unset, malformed,
  start, Host, scan_ports, try_ephemeral, next_free_port,
}
use anyhop.State.Ports.Used.{Holds, used_ports_sound, used_ports_complete}

-- No two records hold one port.
pub record DistinctPorts (state : Data) : Type 0 where
  pub one_holder : (h k : Holder) (x : ℕ) → x ≢ 0 → Holds state h x → Holds state k x → h ≡ k

has_key-without_holder :
    (x : ℕ) (own h : Holder) (used : Dict ℕ Holder)
    → lookup x used ≡ some h
    → h ≢ own
    → has_key x (without_holder own used) ≡ true
unfolding has_key lookup without_holder
has_key-without_holder x own h [] e ne = cc
has_key-without_holder x own h ((port, holder) ∷ used) e ne =
    ground (arith, e, ne, has_key-without_holder x own h used)

only_excluded :
    (state : Data) (port : ℕ) (exclude : Option Holder)
    → DistinctPorts state
    → port ≢ 0
    → has_key port (excluding exclude (used_ports state)) ≡ false
    → (h : Holder) → Holds state h port
    → exclude ≡ some h
unfolding excluding has_key
only_excluded state port none d ne free h held = cc (free, used_ports_complete state h port held ne)
only_excluded state port (some own) d ne free h held =
    elim (Option-cases (lookup port (used_ports state))) [
      | inl unused ↦ absurd (ground (arith, unused, used_ports_complete state h port held ne))
      | inr (k, used) ↦ elim (holder_eq.dec k own) [
        | yes mine ↦
            let first : Holds state k port = used_ports_sound state port k used in
            ap some (sym mine ∙ d.one_holder k h port ne first held)
        | no other ↦ cc (free, has_key-without_holder port own k (used_ports state) used other)
      ]
    ]

-- If ports are distinct, a port that was claimed is the one asked for, from 1 to 65535, and only
-- the excluded holder can have it already.
pub claim_port_free :
    (state : Data) (port q : ℕ) (exclude : Option Holder)
    → DistinctPorts state
    → claim_port state port exclude ≡ ok q
    → (q ≡ port) × (0 < q) × (q ≤ 65535) × ((h : Holder) → Holds state h q → exclude ≡ some h)
unfolding claim_port
claim_port_free state port q exclude d e =
    elim (Bool-cases (has_key port (excluding exclude (used_ports state)))) [
      | inl taken ↦ absurd (ground (arith, e, taken))
      | inr free ↦
          let same : q ≡ port = ground (arith, e, free) in
          (
            same,
            ground (arith, e, free),
            ground (arith, e, free),
            λ h held.
                only_excluded state port exclude d (ground (arith, e, free)) free h
                  (subst (Holds state h) same held),
          )
    ]

free_of_used :
    (state : Data) (q : ℕ) (h : Holder)
    → q ≢ 0
    → has_key q (used_ports state) ≡ false
    → ¬ Holds state h q
free_of_used state q h ne e k = cc (e, used_ports_complete state h q k ne)

try_ephemeral_free :
    (host : Host) (used : Dict ℕ Holder) (rounds attempt q : ℕ)
    → try_ephemeral host.ephemeral used rounds attempt ≡ ok q
    → (0 < q) × (has_key q used ≡ false)
unfolding try_ephemeral
try_ephemeral_free host used zero attempt q e = cc
try_ephemeral_free host used (suc rounds) attempt q e =
    ground
      (arith, e, host.ephemeral_pos attempt, try_ephemeral_free host used rounds (attempt + 1) q)

-- Whether the scan may take the port.
abbrev available : (ℕ → Bool) → Dict ℕ Holder → ℕ → Bool
available bindable used port = not (has_key port used) && bindable port

-- The scan takes the first port that it may.
scan_ports_first :
    (bindable : ℕ → Bool) (used : Dict ℕ Holder) (rounds port q : ℕ)
    → scan_ports bindable used rounds port ≡ ok q
    → (port ≤ q)
      × (q < port + rounds)
      × (available bindable used q ≡ true)
      × ((r : ℕ) → port ≤ r → r < q → available bindable used r ≡ false)
unfolding scan_ports
scan_ports_first bindable used zero port q e = absurd (ground (arith, e))
scan_ports_first bindable used (suc rounds) port q e =
    elim (Bool-cases (available bindable used port)) [
      | inl now ↦ (
        ground (arith, now, e),
        ground (arith, now, e),
        ground (arith, now, e),
        λ r lo hi. absurd (ground (arith, now, e)),
      )
      | inr later ↦
          let (lo, hi, ok_q, first) =
            scan_ports_first bindable used rounds (port + 1) q (ground (arith, later, e)) in
          (
            omega (arith, lo),
            omega (arith, hi),
            ok_q,
            λ r l h. elim (nat_eq.dec r port) [
              | yes same ↦ rw same later
              | no other ↦ first r (omega arith) h
            ],
          )
    ]

-- The scan fails only where it may take no port.
scan_ports_none :
    (bindable : ℕ → Bool) (used : Dict ℕ Holder) (rounds port r : ℕ)
    → available bindable used r ≡ true
    → port ≤ r
    → r < port + rounds
    → (q : ℕ) × (scan_ports bindable used rounds port ≡ ok q)
unfolding scan_ports
scan_ports_none bindable used zero port r a lo hi = absurd (omega arith)
scan_ports_none bindable used (suc rounds) port r a lo hi =
    elim (Bool-cases (available bindable used port)) [
      | inl now ↦ (port, ground (arith, now))
      | inr later ↦
          let other : r ≢ port = λ same. cc (same, a, later) in
          let (q, found) =
            scan_ports_none bindable used rounds (port + 1) r a (omega arith) (omega arith) in
          (q, ground (arith, later, found))
    ]

-- A port that `_next_free_port` returns is held by nobody, and is not 0.
pub next_free_port_free :
    (host : Host) (state : Data) (q : ℕ)
    → next_free_port host state ≡ ok q
    → (0 < q) × ((h : Holder) → ¬ Holds state h q)
unfolding next_free_port
next_free_port_free host state q e = from host.base refl
  where
    from : (base : PortBase) → host.base ≡ base → (0 < q) × ((h : Holder) → ¬ Holds state h q)
    from unset b =
        let (pos, free) = try_ephemeral_free host (used_ports state) 100 0 q (rw b at e) in
        (pos, λ h. free_of_used state q h (ground arith) free)
    from malformed b = absurd (ground (arith, e, b))
    from (start base) b = elim (Bool-cases (ltb 0 base && leb base 65535)) [
      | inl inside ↦
          let (lo, hi, a, first) =
            scan_ports_first host.os_port_free (used_ports state) (65536 - base) base q
              (ground (arith, e, b, inside)) in
          (
            ground (arith, inside, lo),
            λ h. free_of_used state q h (ground (arith, inside, lo)) (ground (arith, a)),
          )
      | inr outside ↦ absurd (ground (arith, e, b, outside))
    ]

-- A port that is listed has a holder, and one that is not has none.
unlisted :
    (state : Data) (x : ℕ)
    → ((h : Holder) → ¬ Holds state h x)
    → has_key x (used_ports state) ≡ false
unfolding has_key
unlisted state x alone = elim (Option-cases (lookup x (used_ports state))) [
  | inl absent ↦ rw (has_key, absent) refl
  | inr (h, found) ↦ absurd (alone h (used_ports_sound state x h found))
]

passed_over :
    (state : Data) (bindable : ℕ → Bool) (x : ℕ)
    → available bindable (used_ports state) x ≡ false
    → ((h : Holder) × Holds state h x) ⊎ (bindable x ≡ false)
unfolding has_key
passed_over state bindable x refused = elim (Option-cases (lookup x (used_ports state))) [
  | inl absent ↦ inr (ground (arith, absent, refused))
  | inr (h, found) ↦ inl (h, used_ports_sound state x h found)
]

-- If from a base on a port up to 65535 has no holder and the host can bind it, one is found: it
-- has no holder, the host can bind it, and each port from the base below it has a holder or
-- cannot be bound.
pub next_free_port_base :
    (host : Host) (state : Data) (base r : ℕ)
    → host.base ≡ start base
    → 0 < base
    → base ≤ r
    → r ≤ 65535
    → ((h : Holder) → ¬ Holds state h r)
    → host.os_port_free r ≡ true
    → (q : ℕ) × (next_free_port host state ≡ ok q)
      × (base ≤ q)
      × (q ≤ 65535)
      × ((h : Holder) → ¬ Holds state h q)
      × (host.os_port_free q ≡ true)
      × ((s : ℕ)
          → base ≤ s
          → s < q
          → ((h : Holder) × Holds state h s) ⊎ (host.os_port_free s ≡ false))
unfolding next_free_port
next_free_port_base host state base r b pos lo hi alone bind =
    let a : available host.os_port_free (used_ports state) r ≡ true =
      ground (arith, unlisted state r alone, bind) in
    let (q, found) =
      scan_ports_none host.os_port_free (used_ports state) (65536 - base) base r a lo
        (omega (arith, lo, hi)) in
    let (l, h, free, first) =
      scan_ports_first host.os_port_free (used_ports state) (65536 - base) base q found in
    (
      q,
      ground (arith, b, found, pos, lo, hi),
      l,
      omega (arith, h, lo, hi),
      (λ k. free_of_used state q k (λ z. omega (arith, z, l, pos)) (ground (arith, free))),
      ground (arith, free),
      λ s l h. passed_over state host.os_port_free s (first s l h),
    )
