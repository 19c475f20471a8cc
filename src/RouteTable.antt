-- ===== src/RouteTable.antt =====
-- src/RouteTable.h and src/RouteTable.cpp on Linux. The kernel's routing table is not part of the
-- program: what the program asks of it is a list of requests, in order, and what it answers is a
-- parameter, as are the C library's functions on addresses.
pub mod Netmask
pub mod Lines
pub mod Chnroute
pub mod Default
pub mod Restore
pub mod Windows
pub mod Mac
mod Tests
use sharpvpn.Base.{
  Str, Pton, address, invalid, bad_family, ℕ, zero, suc, ◌+◌, List, [], ◌∷◌, Bool, true, false,
  Option, none, some, ℤ, pos, negsuc, if◌then◌else◌,
}
use sharpvpn.RouteTable.Netmask.{sharp_mask}

pub record RouteRow : Type 0 where
  pub dst : Str
  pub netmask : Str
  pub netmask_sharp : ℤ
  pub gateway : Str
  pub dev : Str

-- The fields of a new row: empty strings, and a `netmask_sharp` of -1.
abbrev pub new_row : RouteRow
new_row = record { dst = []; netmask = []; netmask_sharp = negsuc 0; gateway = []; dev = [] }

-- An `rtentry` as far as the program fills it in.
pub record Route : Type 0 where
  pub rt_dst : ℕ
  pub rt_gateway : ℕ
  pub rt_genmask : ℕ
  pub host_flag : Bool
  pub rt_metric : ℕ
  pub rt_dev : Str

-- `SIOCADDRT` and `SIOCDELRT`.
pub data Request : Type 0 where
  add_route del_route : Route → Request

-- How `ioctl` answers: it does so, or fails with errno 17 or with another.
pub data Answer : Type 0 where
  done exists failed : Answer

-- What the program calls: `ioctl` may answer each request as it likes.
pub record System : Type 0 where
  pub inet_pton : Str → Pton
  pub htonl : ℕ → ℕ
  pub ioctl : Request → Answer

-- The state of the object.
pub record RouteTable : Type 0 where
  pub modified : Bool
  pub tunnel_gateway : Str
  pub default_gateway : Str
  pub default_dev : Str

-- The address that a call leaves in the cleared struct; `none` where the program gives up, which it
-- does for a negative result only.
abbrev pub address_of : Pton → Option ℕ
address_of (address a) = some a
address_of invalid = some 0
address_of bad_family = none

-- The mask: from the string where `netmask_sharp` is -1, else from the number. The shift of the
-- loop is undefined from the 33rd round on, which is `none` here too.
abbrev pub mask_of : System → RouteRow → ℤ → Option ℕ
mask_of sys row (pos n) = elim (sharp_mask n) [ none ↦ none | some v ↦ some (sys.htonl v) ]
mask_of sys row (negsuc zero) = address_of (sys.inet_pton row.netmask)
mask_of sys row (negsuc (suc n)) = some (sys.htonl 0)

-- The `rtentry` of a row, with its flags and metric.
unfoldable pub entry_of : System → RouteRow → Bool → ℕ → Option Route
entry_of sys row host metric = elim (address_of (sys.inet_pton row.dst)) [
  | none ↦ none
  | some dst ↦ elim (address_of (sys.inet_pton row.gateway)) [
    | none ↦ none
    | some gateway ↦ elim (mask_of sys row row.netmask_sharp) [
      | none ↦ none
      | some mask ↦ some (record {
        rt_dst = dst;
        rt_gateway = gateway;
        rt_genmask = mask;
        host_flag = host;
        rt_metric = metric;
        rt_dev = row.dev;
      })
    ]
  ]
]

-- Whether a call returns 0.
abbrev pub succeeds : Answer → Bool
succeeds done = true
succeeds exists = true
succeeds failed = false

-- Whether the call returns 0, and what it asked of the kernel.
unfoldable pub add_route_row : System → RouteRow → Bool → Bool × List Request
add_route_row sys row host = elim (entry_of sys row host 100) [
  | none ↦ (false, [])
  | some route ↦ (succeeds (sys.ioctl (add_route route)), add_route route ∷ [])
]

unfoldable pub del_route_row : System → RouteRow → Bool × List Request
del_route_row sys row = elim (entry_of sys row false 0) [
  | none ↦ (false, [])
  | some route ↦ (succeeds (sys.ioctl (del_route route)), del_route route ∷ [])
]
