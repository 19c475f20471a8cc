-- ===== src/PackageParser.antt =====
-- src/SharpPackageParser.h and src/SharpPackageParser.cpp: which packages of the tunnel device are
-- sent on. A package is its bytes by index; the machine is little-endian.
mod Tests
use sharpvpn.Base.{
  ℕ, ◌+◌, ◌*◌, ◌/◌, ◌%◌, ◌≤◌, ◌<◌, ◌≡◌, ◌==◌, if◌then◌else◌, Bool, true, false, not, ◌&&◌, leb, ltb,
  refl, arith,
}

pub data IpType : Type 0 where
  ipv4 ipv6 unknown_ipver : IpType

-- `x & 0xf0`
abbrev bits_f0 : ℕ → ℕ
bits_f0 x = (x / 16 % 16) * 16

-- `ipv4_hdr->daddr`: the four bytes from 16 on.
unfoldable pub daddr : (ℕ → ℕ) → ℕ
daddr raw = raw 16 + 256 * raw 17 + 65536 * raw 18 + 16777216 * raw 19

unfoldable pub ip_type : (ℕ → ℕ) → IpType
ip_type raw =
    if bits_f0 (raw 0) == 96 then ipv6 else (if bits_f0 (raw 0) == 64 then ipv4 else unknown_ipver)

unfoldable pub multicast : (ℕ → ℕ) → Bool
multicast raw = bits_f0 (daddr raw) == 224

abbrev pub is_ipv4 : IpType → Bool
is_ipv4 ipv4 = true
is_ipv4 ipv6 = false
is_ipv4 unknown_ipver = false

-- The test by which the tunnel thread of src/SharpVpn.cpp sends a package on.
unfoldable pub is_sent_on : (ℕ → ℕ) → Bool
is_sent_on raw = is_ipv4 (ip_type raw) && not (multicast raw)

-- A package of bytes is sent on exactly when the version in its first byte is 4 and its
-- destination is not in 224.0.0.0/4.
pub is_sent_on_lem :
    (raw : ℕ → ℕ)
    → raw 0 < 256
    → raw 16 < 256
    → is_sent_on raw ≡ ((raw 0 / 16 == 4) && not (leb 224 (raw 16) && leb (raw 16) 239))
unfolding is_sent_on ip_type multicast daddr
is_sent_on_lem raw h k = ground arith
