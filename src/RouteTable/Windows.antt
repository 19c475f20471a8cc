-- ===== src/RouteTable/Windows.antt =====
-- src/RouteTable.cpp on Windows: the routes are changed through the functions of iphlpapi, on a copy
-- of the default route that `init_table` takes. What the system is asked for is a list of requests,
-- in order, and what it answers is a parameter.
pub mod Chnroute
pub mod Entries
mod Restore
mod Tests
use sharpvpn.Base.{
  Str, Pton, address, invalid, bad_family, ℕ, zero, suc, ◌+◌, ◌==◌, ◌++◌, List, [], ◌∷◌, Bool, true,
  false, Option, none, some, ℤ, pos, negsuc, if◌then◌else◌,
}
use sharpvpn.RouteTable.{RouteRow, new_row}
use sharpvpn.RouteTable.Chnroute.{zero_ip}
use sharpvpn.RouteTable.Netmask.{sharp_mask}

-- A `MIB_IPFORWARDROW` as far as the program reads it or writes it.
pub record IpRow : Type 0 where
  pub dest : ℕ
  pub mask : ℕ
  pub next_hop : ℕ
  pub if_index : ℕ
  pub metric : ℕ

pub record RouteTable : Type 0 where
  -- `none` is the null pointer.
  pub default_route_row : Option IpRow
  pub default_origin_backup : IpRow
  pub tunnel_route : IpRow
  pub modified : Bool

-- `CreateIpForwardEntry`, `DeleteIpForwardEntry` and `WinExec`.
pub data Request : Type 0 where
  create delete : IpRow → Request
  command : Str → Request

pub record Kernel : Type 0 where
  pub inet_pton : Str → Pton
  pub htonl : ℕ → ℕ
  -- The routes, where the calls of `GetIpForwardTable` succeed.
  pub routes : Option (List IpRow)
  pub succeeds : Request → Bool
  -- How a number is printed.
  pub print : ℕ → Str

-- What variables hold that were not initialised.
pub record Memory : Type 0 where
  pub dst : ℕ
  pub gateway : ℕ
  pub netmask : ℕ
  pub row : IpRow

pub record Run : Type 0 where
  pub table : RouteTable
  pub requests : List Request

-- How a method ends: it returns, 0 or not, or it uses a null pointer.
pub data Ended : Type 0 where
  returned : Bool → Ended
  null_pointer : Ended

abbrev pub ask : Request → Run → Run
ask q r = record r { requests = r.requests ++ (q ∷ []) }

-- The address that a call leaves; only a negative result is refused.
abbrev pub address_of : ℕ → Pton → Option ℕ
address_of memory (address a) = some a
address_of memory invalid = some memory
address_of memory bad_family = none

module _ (k : Kernel) (memory : Memory) where
  -- The mask: from the string where `netmask_sharp` is -1, else from the number. A shift that is
  -- undefined is `none` too.
  abbrev pub mask_of : Str → ℤ → Option ℕ
  mask_of netmask (pos n) = elim (sharp_mask n) [ none ↦ none | some v ↦ some (k.htonl v) ]
  mask_of netmask (negsuc zero) = address_of memory.netmask (k.inet_pton netmask)
  mask_of netmask (negsuc (suc n)) = some (k.htonl 0)

  -- The destination, the gateway and the mask of a row.
  unfoldable pub targets : RouteRow → Option (ℕ × ℕ × ℕ)
  targets row = elim (address_of memory.dst (k.inet_pton row.dst)) [
    | none ↦ none
    | some dst ↦ elim (address_of memory.gateway (k.inet_pton row.gateway)) [
      | none ↦ none
      | some gateway ↦ elim (mask_of row.netmask row.netmask_sharp) [
        | none ↦ none
        | some mask ↦ some (dst, gateway, mask)
      ]
    ]
  ]

  -- The copy of the default route is written over; its gateway stays.
  unfoldable pub on_row : (IpRow → Request) → RouteRow → Run → Ended × Run
  on_row request row r = elim (targets row) [
    | none ↦ (returned false, r)
    | some (dst, gateway, mask) ↦ elim r.table.default_route_row [
      | none ↦ (null_pointer, r)
      | some d ↦
          let d' = record d { dest = dst; mask = mask } in
          let written = record r { table = record r.table { default_route_row = some d' } } in
          (returned (k.succeeds (request d')), ask (request d') written)
    ]
  ]

  abbrev pub add_route_row : RouteRow → Run → Ended × Run
  add_route_row = on_row create

  abbrev pub del_route_row : RouteRow → Run → Ended × Run
  del_route_row = on_row delete

  -- The last route for all addresses.
  unfoldable pub last_default : List IpRow → IpRow → IpRow
  last_default [] row = row
  last_default (route ∷ routes) row = last_default routes (if route.dest == 0 then route else row)

  unfoldable pub init_table : Run → Ended × Run
  init_table r = elim k.routes [
    | none ↦ (returned false, r)
    | some routes ↦
        let d = last_default routes memory.row in
        (
          returned true,
          record r {
            table = record r.table {
              default_route_row = some d;
              default_origin_backup = d;
              modified = true;
            };
          },
        )
  ]

  -- The result of the request is not returned. `dev` is the row's, a number here.
  unfoldable pub add_route_row_complete : RouteRow → ℕ → Run → Ended × Run
  add_route_row_complete row dev r = elim k.routes [
    | none ↦ (returned false, r)
    | some routes ↦ elim (targets row) [
      | none ↦ (returned false, r)
      | some (dst, gateway, mask) ↦
          let d = record (last_default routes memory.row) {
            dest = dst;
            mask = mask;
            next_hop = gateway;
            if_index = dev;
            metric = 100;
          } in
          (returned true, ask (create d) r)
    ]
  ]

  -- The routes for all addresses are deleted, up to the first that cannot be.
  unfoldable pub delete_defaults : List IpRow → Run → Bool × Run
  delete_defaults [] r = (true, r)
  delete_defaults (route ∷ routes) r =
      let rest = delete_defaults routes (ask (delete route) r) in
      let skipped = delete_defaults routes r in
      if route.dest == 0
      then (if k.succeeds (delete route) then rest else (false, ask (delete route) r))
      else skipped

  -- The commands of `set_default_as_tunnel`.
  abbrev route_add : Str → ℕ → Str
  route_add gateway dev = route_add_words ++ (gateway ++ (if_words ++ k.print dev))
    where
      route_add_words : Str
      route_add_words =
          b'r' ∷ b'o' ∷ b'u' ∷ b't' ∷ b'e' ∷ b' ' ∷ b'a' ∷ b'd' ∷ b'd' ∷ b' ' ∷ b'0' ∷ b'.' ∷ b'0'
          ∷ b'.' ∷ b'0' ∷ b'.' ∷ b'0' ∷ b' ' ∷ b'm' ∷ b'a' ∷ b's' ∷ b'k' ∷ b' ' ∷ b'0' ∷ b'.' ∷ b'0'
          ∷ b'.' ∷ b'0' ∷ b'.' ∷ b'0' ∷ b' ' ∷ []

      if_words : Str
      if_words = b' ' ∷ b'i' ∷ b'f' ∷ b' ' ∷ []

  abbrev set_dns : ℕ → Str
  set_dns dev = dns_words ++ (k.print dev ++ static_words)
    where
      dns_words : Str
      dns_words =
          b'n' ∷ b'e' ∷ b't' ∷ b's' ∷ b'h' ∷ b' ' ∷ b'i' ∷ b'n' ∷ b't' ∷ b'e' ∷ b'r' ∷ b'f' ∷ b'a'
          ∷ b'c' ∷ b'e' ∷ b' ' ∷ b'i' ∷ b'p' ∷ b' ' ∷ b's' ∷ b'e' ∷ b't' ∷ b' ' ∷ b'd' ∷ b'n' ∷ b's'
          ∷ b' ' ∷ b'n' ∷ b'a' ∷ b'm' ∷ b'e' ∷ b'=' ∷ []

      static_words : Str
      static_words =
          b' ' ∷ b's' ∷ b'o' ∷ b'u' ∷ b'r' ∷ b'c' ∷ b'e' ∷ b'=' ∷ b's' ∷ b't' ∷ b'a' ∷ b't' ∷ b'i'
          ∷ b'c' ∷ b' ' ∷ b'a' ∷ b'd' ∷ b'd' ∷ b'r' ∷ b'=' ∷ b'1' ∷ b'2' ∷ b'7' ∷ b'.' ∷ b'0' ∷ b'.'
          ∷ b'0' ∷ b'.' ∷ b'1' ∷ []

  -- The tunnel's route is set by a command, for the copy that is kept here is not asked for.
  unfoldable pub set_default_as_tunnel : ℕ → Str → Run → Ended × Run
  set_default_as_tunnel tunnel_name gateway r = elim k.routes [
    | none ↦ (returned false, r)
    | some routes ↦
        let (ok, r') = delete_defaults routes r in
        if ok
        then elim (address_of memory.gateway (k.inet_pton gateway)) [
          | none ↦ (returned false, r')
          | some a ↦ elim r'.table.default_route_row [
            | none ↦ (null_pointer, r')
            | some d ↦
                let tunnel = record d { dest = 0; if_index = tunnel_name } in
                let kept = record r' { table = record r'.table { tunnel_route = tunnel } } in
                (
                  returned true,
                  record kept {
                    requests =
                        kept.requests
                        ++ (command (route_add gateway tunnel_name)
                            ∷ command (set_dns tunnel_name)
                            ∷ command (set_dns kept.table.default_origin_backup.if_index)
                            ∷ []);
                  },
                )
          ]
        ]
        else (returned false, r')
  ]

-- `get_default_route`: a row that does not depend on the machine, and its `dev`.
abbrev pub get_default_route : RouteRow × ℕ
get_default_route = (record new_row { dst = zero_ip; gateway = ten_ip }, 7)
  where
    ten_ip : Str
    ten_ip = b'1' ∷ b'0' ∷ b'.' ∷ b'0' ∷ b'.' ∷ b'0' ∷ b'.' ∷ b'1' ∷ []
