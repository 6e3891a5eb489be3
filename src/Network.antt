-- ===== src/Network.antt =====
-- The `ipaddress` objects that routes.py and tracer.py compute with. An address is a number and its
-- family; a network is its family, prefix length and first address. Parsing of a text is the
-- parameter `Parser`, since the library's grammar is not part of the repository.
pub mod Subnet
use anyhop.Prelude.{
  ℕ, ◌+◌, ◌-◌, ◌*◌, ◌/◌, ◌^◌, ◌≤◌, ◌<◌, ◌≡◌, Bool, ◌&&◌, Option, some, List, Text, leb, Eq, ◌==◌,
  nat_eq,
}

pub data Family : Type 0 where
  v4 v6 : Family

Family-discrete : Discrete Family
Family-discrete = hlevel

instance unfoldable pub family_eq : Eq Family
unfolding Family-discrete
family_eq = record { dec = Family-discrete }

-- `max_prefixlen`
abbrev pub bits : Family → ℕ
bits v4 = 32
bits v6 = 128

pub record Address : Type 0 where
  pub version : Family
  pub value : ℕ

pub record Network : Type 0 where
  pub version : Family
  pub prefixlen : ℕ
  pub address : ℕ

-- The number of addresses in a block of the given prefix length.
unfoldable pub block_size : Family → ℕ → ℕ
block_size f len = 2 ^ (bits f - len)

-- `address & (((1 << len) - 1) << (bits - len))`: the low bits are cleared, so the result is the
-- largest multiple of the block size that is not above the address.
unfoldable pub supernet : Family → ℕ → ℕ → ℕ
supernet f len address = address / block_size f len * block_size f len

-- `inner.subnet_of(outer)` of one family: the first and the last address lie within.
unfoldable pub subnet_of : Network → Network → Bool
subnet_of inner outer =
    leb outer.address inner.address
    && leb (inner.address + block_size inner.version inner.prefixlen)
        (outer.address + block_size outer.version outer.prefixlen)

-- `ip.version == net.version and ip in net`
unfoldable pub in_network : Address → Network → Bool
in_network ip net =
    ip.version == net.version && supernet net.version net.prefixlen ip.value == net.address

-- A network with no host bits set, as `ip_network` returns it.
pub record IsNetwork (n : Network) : Type 0 where
  pub fits : n.prefixlen ≤ bits n.version
  pub aligned : supernet n.version n.prefixlen n.address ≡ n.address

-- `ipaddress.ip_network`: none where it raises `ValueError`.
pub record Parser : Type 0 where
  pub network : Text → Option Network
  pub network-IsNetwork : (t : Text) (n : Network) → network t ≡ some n → IsNetwork n
