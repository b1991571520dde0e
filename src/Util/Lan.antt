-- ===== src/Util/Lan.antt =====
-- desktop/src/util.rs: `is_lan_addr` and `is_cgnat`, with the tests of `std::net` that they use.
use Prim.Native.Nat.{bit_and}
use antarloka.Prelude.{
  ℕ, zero, suc, ◌+◌, ◌*◌, ◌^◌, ◌<◌, ◌≡◌, refl, Bool, true, false, ◌&&◌, ◌||◌, arith, leb, ◌==◌,
  nat_eq, if◌then◌else◌,
}

-- The octets of an IPv4 address, the segments of an IPv6 address.
pub data IpAddr : Type 0 where
  v4 : ℕ → ℕ → ℕ → ℕ → IpAddr
  v6 : ℕ → ℕ → ℕ → ℕ → ℕ → ℕ → ℕ → ℕ → IpAddr

-- `Ipv4Addr::is_private`
is_private : ℕ → ℕ → Bool
is_private a b = a == 10 || (a == 172 && leb 16 b && leb b 31) || (a == 192 && b == 168)

is_cgnat : ℕ → ℕ → Bool
is_cgnat a b = a == 100 && leb 64 b && leb b 127

unfoldable pub is_lan_addr : IpAddr → Bool
unfolding is_private is_cgnat
is_lan_addr (v4 a b c d) = is_private a b || (a == 169 && b == 254) || a == 127 || is_cgnat a b
is_lan_addr (v6 s t u v w x y z) =
    (s == 0 && t == 0 && u == 0 && v == 0 && w == 0 && x == 0 && y == 0 && z == 1)
    || bit_and s 0xfe00 == 0xfc00
    || bit_and s 0xffc0 == 0xfe80

-- An IPv4 address as the number that it is on the wire.
abbrev pub address : ℕ → ℕ → ℕ → ℕ → ℕ
address a b c d = a * 2 ^ 24 + b * 2 ^ 16 + c * 2 ^ 8 + d

abbrev pub between : ℕ → ℕ → ℕ → Bool
between lo n hi = leb lo n && leb n hi

-- The blocks 10/8, 172.16/12, 192.168/16, 169.254/16, 127/8 and 100.64/10.
abbrev pub is_lan_number : ℕ → Bool
is_lan_number n =
    between 0x0a00_0000 n 0x0aff_ffff
    || between 0xac10_0000 n 0xac1f_ffff
    || between 0xc0a8_0000 n 0xc0a8_ffff
    || between 0xa9fe_0000 n 0xa9fe_ffff
    || between 0x7f00_0000 n 0x7fff_ffff
    || between 0x6440_0000 n 0x647f_ffff

module _ (a b c d : ℕ) (hb : b < 256) (hc : c < 256) (hd : d < 256) where
  block_10 : between 0x0a00_0000 (address a b c d) 0x0aff_ffff ≡ (a == 10)
  block_10 = ground arith

  block_127 : between 0x7f00_0000 (address a b c d) 0x7fff_ffff ≡ (a == 127)
  block_127 = ground arith

  block_172 : between 0xac10_0000 (address a b c d) 0xac1f_ffff ≡ (a == 172 && leb 16 b && leb b 31)
  block_172 = ground arith

  block_100 :
      between 0x6440_0000 (address a b c d) 0x647f_ffff ≡ (a == 100 && leb 64 b && leb b 127)
  block_100 = ground arith

  block_192 : between 0xc0a8_0000 (address a b c d) 0xc0a8_ffff ≡ (a == 192 && b == 168)
  block_192 = ground arith

  block_169 : between 0xa9fe_0000 (address a b c d) 0xa9fe_ffff ≡ (a == 169 && b == 254)
  block_169 = ground arith

  -- With octets below 256, an IPv4 address is accepted exactly if its number lies in one of the six blocks.
  pub is_lan_addr_v4 : is_lan_addr (v4 a b c d) ≡ is_lan_number (address a b c d)
  unfolding is_lan_addr
  is_lan_addr_v4 =
      rw (block_10, block_172, block_192, block_169, block_127, block_100) (ground arith)

-- The test holds of every segment less than the bound.
unfoldable holds_under : (ℕ → Bool) → ℕ → Bool
holds_under test zero = true
holds_under test (suc last) = holds_under test last && test last

holds_under_elim :
    (test : ℕ → Bool) (bound segment : ℕ)
    → segment < bound
    → holds_under test bound ≡ true
    → test segment ≡ true
unfolding holds_under
holds_under_elim test zero segment lt table = absurd (omega arith)
holds_under_elim test (suc last) segment lt table =
    ground (arith, holds_under_elim test last segment)

abbrev same : Bool → Bool → Bool
same true b = b
same false b = if b then false else true

masks_table :
    holds_under
      (λ s.
        same (bit_and s 0xfe00 == 0xfc00) (between 0xfc00 s 0xfdff)
        && same (bit_and s 0xffc0 == 0xfe80) (between 0xfe80 s 0xfebf))
      65536
    ≡ true
unfolding holds_under
masks_table = refl

-- With a first segment below 2^16, an IPv6 address is accepted exactly if it is ::1 or its first segment lies in fc00::/7 or fe80::/10.
pub is_lan_addr_v6 :
    (s t u v w x y z : ℕ)
    → s < 65536
    → is_lan_addr (v6 s t u v w x y z) ≡ (
        (s == 0 && t == 0 && u == 0 && v == 0 && w == 0 && x == 0 && y == 0 && z == 1)
        || between 0xfc00 s 0xfdff
        || between 0xfe80 s 0xfebf)
unfolding is_lan_addr
is_lan_addr_v6 s t u v w x y z h = ground (arith, holds_under_elim _ 65536 s h masks_table)
