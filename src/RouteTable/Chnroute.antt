-- ===== src/RouteTable/Chnroute.antt =====
-- `set_default_as_tunnel`, `set_chnroute` and `delete_chnroute` of src/RouteTable.cpp on Linux.
use sharpvpn.Base.{
  Str, ℕ, List, [], ◌∷◌, ◌++◌, Bool, true, false, Option, none, some, ℤ, pos, if◌then◌else◌,
}
use sharpvpn.RouteTable.{
  RouteRow, new_row, RouteTable, System, Request, add_route_row, del_route_row,
}
use sharpvpn.RouteTable.Lines.{load_rows}

-- "0.0.0.0", "128.0.0.0" and "255.255.255.255".
abbrev pub zero_ip : Str
zero_ip = b'0' ∷ b'.' ∷ b'0' ∷ b'.' ∷ b'0' ∷ b'.' ∷ b'0' ∷ []

abbrev pub half_ip : Str
half_ip = b'1' ∷ b'2' ∷ b'8' ∷ b'.' ∷ b'0' ∷ b'.' ∷ b'0' ∷ b'.' ∷ b'0' ∷ []

abbrev pub ones_ip : Str
ones_ip =
    b'2' ∷ b'5' ∷ b'5' ∷ b'.' ∷ b'2' ∷ b'5' ∷ b'5' ∷ b'.' ∷ b'2' ∷ b'5' ∷ b'5' ∷ b'.' ∷ b'2' ∷ b'5'
    ∷ b'5' ∷ []

-- What a method does: whether it returns 0, its requests in order, and the object after it.
pub record Call : Type 0 where
  pub ok : Bool
  pub requests : List Request
  pub table : RouteTable

-- A row for one half of all addresses.
abbrev pub half_row : Str → Str → Str → RouteRow
half_row dst gateway dev = record new_row {
  dst = dst;
  netmask_sharp = pos 1;
  gateway = gateway;
  netmask = half_ip;
  dev = dev;
}

abbrev is_empty : Str → Bool
is_empty [] = true
is_empty (c ∷ s) = false

module _ (sys : System) where
  -- The results of `add_route_row` are not looked at.
  unfoldable pub set_default_as_tunnel : Str → Str → RouteTable → Call
  set_default_as_tunnel tunnel_name gateway t = record {
    ok = true;
    requests =
        (add_route_row sys (half_row zero_ip gateway tunnel_name) false).1
        ++ (add_route_row sys (half_row half_ip gateway tunnel_name) false).1;
    table = record t { tunnel_gateway = gateway };
  }

  -- Rows added, and rows deleted, one after the other.
  abbrev pub add_all : List RouteRow → List Request
  add_all [] = []
  add_all (row ∷ rows) = (add_route_row sys row false).1 ++ add_all rows

  abbrev pub del_all : List RouteRow → List Request
  del_all [] = []
  del_all (row ∷ rows) = (del_route_row sys row).1 ++ del_all rows

  -- The route to the server, through the default gateway.
  abbrev pub host_row : RouteRow → Str → RouteRow
  host_row default_row remote_ip = record default_row {
    dst = remote_ip;
    netmask = ones_ip;
    netmask_sharp = pos 32;
  }

  -- `default_row` is what `get_default_route` returns, `files` the lines of the files that open, and
  -- `memory` what the buffer holds before the first line.
  unfoldable pub set_chnroute :
      (Str → ℤ) → (Str → Option (List Str)) → (ℕ → ℕ) → RouteRow → Str → Str → RouteTable → Call
  set_chnroute strtol files memory default_row filename remote_ip t =
      let row = host_row default_row remote_ip in
      let host = (add_route_row sys row true).1 in
      let t' = record t { default_gateway = row.gateway; default_dev = row.dev; modified = true } in
      if is_empty filename
      then record { ok = true; requests = host; table = t' }
      else elim (files filename) [
        | none ↦ record { ok = false; requests = host; table = t' }
        | some lines ↦ record {
          ok = true;
          requests = host ++ add_all (load_rows strtol lines memory row);
          table = t';
        }
      ]

  -- The rows of the tunnel are deleted with the device of the default route.
  unfoldable pub delete_chnroute :
      (Str → ℤ) → (Str → Option (List Str)) → (ℕ → ℕ) → Str → RouteTable → Call
  delete_chnroute strtol files memory filename t =
      let lower = half_row zero_ip t.tunnel_gateway t.default_dev in
      let upper = half_row half_ip t.tunnel_gateway t.default_dev in
      let halves = (del_route_row sys lower).1 ++ (del_route_row sys upper).1 in
      let row = record upper { gateway = t.default_gateway } in
      if t.modified
      then (if is_empty filename
          then record { ok = true; requests = []; table = t }
          else elim (files filename) [
            | none ↦ record { ok = false; requests = halves; table = t }
            | some lines ↦ record {
              ok = true;
              requests = halves ++ del_all (load_rows strtol lines memory row);
              table = record t { modified = false };
            }
          ])
      else record { ok = true; requests = []; table = t }
