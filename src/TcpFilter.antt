-- ===== src/TcpFilter.antt =====
-- `recv` and `get_package` of src/rudp/tcp_engine/TcpFilter.cpp, with the headers of
-- src/rudp/tcp_engine/PackageHeader.h. The capture library is not part of the repository; a captured
-- frame is the memory from its buffer on, and its length.
use sharpvpn.Base.{
  ℕ, ◌+◌, ◌-◌, ◌*◌, ◌/◌, ◌%◌, ◌≤◌, ◌≡◌, List, Bool, false, ◌==◌, ltb, not, if◌then◌else◌, read,
  arith,
}
use sharpvpn.NetStruct.Ring.{Ring}
use sharpvpn.NetStruct.Ring

pub record Frame : Type 0 where
  pub memory : ℕ → ℕ
  pub len : ℕ

abbrev pub size_ethernet : ℕ
size_ethernet = 14

-- `IP_HL(ip) * 4` and `TH_OFF(tcp) * 4`.
abbrev pub size_ip : Frame → ℕ
size_ip f = f.memory size_ethernet % 16 * 4

abbrev pub size_tcp : Frame → ℕ
size_tcp f = f.memory (size_ethernet + size_ip f + 12) / 16 % 16 * 4

abbrev pub size_headers : Frame → ℕ
size_headers f = size_ethernet + size_ip f + size_tcp f

-- What `recv` returns: -1, the payload with whether the address was filled in, or a length below 0,
-- which `memcpy` takes for one of almost all memory.
pub data Received : Type 0 where
  refused overrun : Received
  payload : List ℕ → Bool → Received

-- `ip->ip_vhl & 0xf0 == 0x40`: the comparison binds closer.
abbrev is_ipv4 : Frame → Bool
is_ipv4 f = not ((if 0xf0 == 0x40 then f.memory size_ethernet % 2 else 0) == 0)

-- The copy begins behind the payload's own beginning by all headers once more.
unfoldable pub recv : Frame → Received
recv f =
    if ltb (size_ip f) 20
    then refused
    else (if ltb (size_tcp f) 4
        then refused
        else (if ltb f.len (size_headers f)
            then overrun
            else payload (read f.memory (size_headers f + size_headers f) (f.len - size_headers f))
                (is_ipv4 f)))

-- A frame that was captured is queued, unless it is empty.
unfoldable pub get_package : Ring Frame → Frame → Ring Frame
get_package package_list f = if f.len == 0 then package_list else Ring.push package_list f

-- What `recv` hands on of a frame with both headers is as long as the frame's payload, but begins
-- as far behind its beginning as that lies behind the frame's, and the address is never filled in.
pub recv_lem :
    (f : Frame)
    → 20 ≤ size_ip f
    → 4 ≤ size_tcp f
    → size_headers f ≤ f.len
    → recv f
      ≡ payload (read f.memory (size_headers f + size_headers f) (f.len - size_headers f)) false
unfolding recv
recv_lem f i t h = ground (arith, i, t, h)
