-- ===== src/RouteTable/Mac.antt =====
-- src/RouteTable.cpp on macOS: the routes are changed by messages on a routing socket, whose answers
-- to a change are not looked at.
mod Walk
mod Tests
use sharpvpn.Base.{
  Str, Pton, address, invalid, bad_family, ℕ, zero, suc, ◌+◌, ◌-◌, ◌*◌, ◌/◌, ◌%◌, ◌^◌, ◌==◌, ◌++◌,
  List, [], ◌∷◌, Bool, true, false, Option, none, some, ℤ, pos, negsuc, if◌then◌else◌,
}
use sharpvpn.RouteTable.{RouteRow, new_row}
use sharpvpn.RouteTable.Chnroute.{zero_ip}
use sharpvpn.RouteTable.Netmask.{sharp_mask}

-- `RTM_ADD` and `RTM_DELETE`.
pub data Change : Type 0 where
  adds deletes : Change

-- The flags: `RTF_GATEWAY | RTF_UP`, or what was in the buffer, which only the addition sets.
pub data Flags : Type 0 where
  gateway_up : Flags
  left_over : ℕ → Flags

pub record Message : Type 0 where
  pub change : Change
  pub flags : Flags
  pub seq : ℕ
  pub dst : ℕ
  pub gateway : ℕ
  pub netmask : ℕ

-- What is asked for, in order.
pub data Request : Type 0 where
  open_socket close_socket : Request
  send : Message → Request

-- How a method ends: it returns, 0 or not, or a shift is undefined.
pub data Ended : Type 0 where
  returned : Bool → Ended
  undefined : Ended

-- What is in the buffer where it is not written: `new` does not clear it.
pub record Memory : Type 0 where
  pub flags : ℕ
  pub dst : ℕ
  pub gateway : ℕ
  pub netmask : ℕ

-- What `inet_pton` leaves in the message; its result is not looked at.
abbrev pub left_by : ℕ → Pton → ℕ
left_by memory (address a) = a
left_by memory invalid = memory
left_by memory bad_family = memory

-- The mask: a number, a string that is refused, or an undefined shift.
pub data Mask : Type 0 where
  mask : ℕ → Mask
  refused shifted_too_far : Mask

module _ (inet_pton : Str → Pton) (htonl : ℕ → ℕ) (memory : Memory) where
  abbrev string_mask : Pton → Mask
  string_mask (address a) = mask a
  string_mask invalid = mask memory.netmask
  string_mask bad_family = refused

  abbrev sharp : Option ℕ → Mask
  sharp none = shifted_too_far
  sharp (some v) = mask (htonl v)

  unfoldable pub mask_of : Str → ℤ → Mask
  mask_of netmask (pos n) = sharp (sharp_mask n)
  mask_of netmask (negsuc zero) = string_mask (inet_pton netmask)
  mask_of netmask (negsuc (suc n)) = mask (htonl 0)

  -- A mask that is refused leaves the socket open.
  unfoldable pub change_row : Change → Flags → ℕ → RouteRow → Ended × List Request
  change_row change flags seq row = elim (mask_of row.netmask row.netmask_sharp) [
    | refused ↦ (returned false, open_socket ∷ [])
    | shifted_too_far ↦ (undefined, open_socket ∷ [])
    | mask m ↦ (
      returned true,
      open_socket
          ∷ send (record {
            change = change;
            flags = flags;
            seq = seq;
            dst = left_by memory.dst (inet_pton row.dst);
            gateway = left_by memory.gateway (inet_pton row.gateway);
            netmask = m;
          })
          ∷ close_socket
          ∷ [],
    )
  ]

  abbrev pub add_route_row : RouteRow → Ended × List Request
  add_route_row = change_row adds gateway_up 9999

  abbrev pub del_route_row : RouteRow → Ended × List Request
  del_route_row = change_row deletes (left_over memory.flags) 9998

-- `ROUNDUP(a, 8)`, and how far `NEXT_SA` goes on.
abbrev pub roundup : ℕ → ℕ
roundup a = if a % 8 == 0 then a else a - a % 8 + 8

abbrev pub next_sa : ℕ → ℕ
next_sa sa_len = if sa_len == 0 then 8 else roundup sa_len

-- The loop over the bits of `rtm_addrs`: where the address of each bit begins, behind the header.
unfoldable pub walk : ℕ → (ℕ → ℕ) → ℕ → ℕ → List (Option ℕ)
walk zero buf addrs sa = []
walk (suc n) buf addrs sa =
    let found = walk n buf (addrs / 2) (sa + next_sa (buf sa)) in
    let skipped = walk n buf (addrs / 2) sa in
    if addrs % 2 == 1 then some sa ∷ found else none ∷ skipped

abbrev pub entry_at : ℕ → List (Option ℕ) → Option ℕ
entry_at i [] = none
entry_at zero (e ∷ es) = e
entry_at (suc i) (e ∷ es) = entry_at i es

-- A `uint32_t` of a buffer.
abbrev pub read32 : (ℕ → ℕ) → ℕ → ℕ
read32 b i = b i + 256 * b (i + 1) + 65536 * b (i + 2) + 16777216 * b (i + 3)

-- A string of a buffer, of at most so many characters.
abbrev pub string_at : ℕ → (ℕ → ℕ) → ℕ → Str
string_at zero b i = []
string_at (suc n) b i = if b i == 0 then [] else b i ∷ string_at n b (i + 1)

-- The strings for an answer without a gateway, and without an interface.
abbrev pub err_gateway : Str
err_gateway = b'e' ∷ b'r' ∷ b'r' ∷ b' ' ∷ b'g' ∷ b'a' ∷ b't' ∷ b'e' ∷ b'w' ∷ b'a' ∷ b'y' ∷ []

abbrev pub err_interface : Str
err_interface =
    b'e' ∷ b'r' ∷ b'r' ∷ b' ' ∷ b'i' ∷ b'n' ∷ b't' ∷ b'e' ∷ b'r' ∷ b'f' ∷ b'a' ∷ b'c' ∷ b'e' ∷ []

-- The numbers of the platform: how many addresses a message may have, and which are the gateway and
-- the interface.
pub record Platform : Type 0 where
  pub rtax_max : ℕ
  pub rtax_gateway : ℕ
  pub rtax_ifp : ℕ
  pub inet_ntoa : ℕ → Str

-- `get_default_route`, of an answer of at most `len` bytes behind its header.
unfoldable pub get_default_route : Platform → ℕ → (ℕ → ℕ) → ℕ → RouteRow
get_default_route p len buf addrs =
    let rti_info = walk p.rtax_max buf addrs 0 in
    elim (entry_at p.rtax_gateway rti_info) [
      | none ↦ record new_row { dst = err_gateway }
      | some gate ↦
          let row = record new_row { gateway = p.inet_ntoa (read32 buf (gate + 4)) } in
          elim (entry_at p.rtax_ifp rti_info) [
            | none ↦ record row { dst = err_interface }
            | some ifp ↦ record row {
              dev = string_at len buf (ifp + 4);
              dst = zero_ip;
              netmask = zero_ip;
              netmask_sharp = pos 0;
            }
          ]
    ]
