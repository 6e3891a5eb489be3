-- ===== src/Network/Subnet.antt =====
-- Containment of networks: the comparison of ends, the lookup of a masked address, and membership.
use native.Mathlib.Nat.{mul_comm, pow-suc, pow-le-pow_right}
use native.Mathlib.Decide.{dec_le}
use anyhop.Prelude.{
  ℕ, suc, ◌+◌, ◌-◌, ◌*◌, ◌/◌, ◌^◌, ◌≤◌, ◌<◌, ◌≡◌, ap, sym, ◌∙◌, ◌↔◌, true, arith, nat_eq,
}
use anyhop.Prelude.Arith.{two-pow_pos, two-pow-add, div-eq_of_block, le_of_multiples, block_bounds}
use anyhop.Network.{
  Family, Network, Address, IsNetwork, bits, block_size, supernet, subnet_of, in_network, family_eq,
}

block_size_pos : (f : Family) (len : ℕ) → 0 < block_size f len
unfolding block_size
block_size_pos f len = two-pow_pos (bits f - len)

-- A shorter prefix makes a block of several of the smaller ones.
block_size-mul :
    (f : Family) (short long : ℕ)
    → short ≤ long
    → long ≤ bits f
    → block_size f short ≡ block_size f long * 2 ^ (long - short)
unfolding block_size
block_size-mul f short long h k =
    ap (λ (e : ℕ). 2 ^ e) (omega arith) ∙ two-pow-add (bits f - long) (long - short)

block_size_lt :
    (f : Family) (short long : ℕ)
    → short < long
    → long ≤ bits f
    → block_size f long < block_size f short
unfolding block_size
block_size_lt f short long h k =
    let grown : 2 ^ (suc (bits f - long)) ≤ 2 ^ (bits f - short) =
      pow-le-pow_right (omega arith) (omega arith) in
    omega (arith, grown, pow-suc 2 (bits f - long), two-pow_pos (bits f - long))

-- The blocks of one size that hold an address are one block.
supernet_eq : (s a o : ℕ) → 0 < s → o / s * s ≡ o → o ≤ a → a < o + s → a / s * s ≡ o
supernet_eq s a o pos aligned lo hi =
    let same : a / s ≡ o / s =
      div-eq_of_block a s (o / s) (omega (arith, mul_comm s (o / s)))
        (omega (arith, mul_comm s (o / s))) in
    ap (λ (q : ℕ). q * s) same ∙ aligned

-- A small block that starts within a large one ends within it.
block_end : (s t u a o : ℕ) → u ≡ s * t → a / s * s ≡ a → o / u * u ≡ o → a < o + u → a + s ≤ o + u
block_end s t u a o whole ai ao lt =
    let start : s * (a / s) ≡ a = mul_comm s (a / s) ∙ ai in
    let end : s * (t * (o / u) + t) ≡ o + u =
      let e : o / u * (s * t) ≡ o = ap (λ (w : ℕ). o / u * w) (sym whole) ∙ ao in
      omega (arith, e, whole) in
    let step : s * (a / s) + s ≤ s * (t * (o / u) + t) =
      le_of_multiples s (a / s) (t * (o / u) + t) (omega (arith, start, end)) in
    omega (arith, start, end, step)

-- `inner` ends within `outer` exactly when the index finds `outer` under its own prefix length.
pub subnet_of_iff :
    (f : Family) (inner outer : ℕ) (a o : ℕ)
    → inner ≤ bits f
    → outer ≤ bits f
    → supernet f inner a ≡ a
    → supernet f outer o ≡ o
    → ((o ≤ a) × (a + block_size f inner ≤ o + block_size f outer))
      ↔ ((outer ≤ inner) × (supernet f outer a ≡ o))
unfolding supernet
subnet_of_iff f inner outer a o hi ho ai ao = (
  λ (lo, hi).
      let long : outer ≤ inner = elim (dec_le outer inner) [
        | yes h ↦ h
        | no n ↦ absurd (omega (arith, block_size_lt f inner outer (omega arith) ho))
      ] in
      (
        long,
        supernet_eq (block_size f outer) a o (block_size_pos f outer) ao lo
            (omega (arith, block_size_pos f inner)),
      ),
  λ (short, same).
      let bounds = block_bounds a (block_size f outer) (block_size_pos f outer) in
      (
        omega (arith, bounds.0),
        block_end (block_size f inner) (2 ^ (inner - outer)) (block_size f outer) a o
            (block_size-mul f outer inner short hi) ai ao (omega (arith, bounds.1)),
      ),
)

in_block : (f : Family) (len x a : ℕ) → supernet f len x ≡ a → (a ≤ x) × (x < a + block_size f len)
unfolding supernet
in_block f len x a e =
    let bounds = block_bounds x (block_size f len) (block_size_pos f len) in
    (omega (arith, bounds.0), omega (arith, bounds.1))

supernet_of_block :
    (f : Family) (len x o : ℕ)
    → supernet f len o ≡ o
    → o ≤ x
    → x < o + block_size f len
    → supernet f len x ≡ o
unfolding supernet
supernet_of_block f len x o = supernet_eq (block_size f len) x o (block_size_pos f len)

-- A network within another holds no address that the other lacks.
pub in_network_mono :
    (inner outer : Network) (ip : Address)
    → IsNetwork inner
    → IsNetwork outer
    → inner.version ≡ outer.version
    → subnet_of inner outer ≡ true
    → in_network ip inner ≡ true
    → in_network ip outer ≡ true
unfolding subnet_of in_network
in_network_mono inner outer ip hi ho same sub mem = ground (
  arith,
  in_block inner.version inner.prefixlen ip.value inner.address,
  supernet_of_block outer.version outer.prefixlen ip.value outer.address ho.aligned,
)
