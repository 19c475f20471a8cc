-- ===== src/RouteTable/Restore.antt =====
-- What is left of the routes that were set once they are deleted.
use sharpvpn.Base.{
  Str, ℕ, ◌≡◌, refl, sym, ap, ap₂, ◌∙◌, List, [], ◌∷◌, ◌++◌, map, Bool, true, false, Option, some,
  inl, inr, Option-cases, ℤ, pos, All, arith,
}
use sharpvpn.RouteTable.{
  RouteRow, RouteTable, System, Route, Request, add_route, del_route, entry_of, add_route_row,
  del_route_row,
}
use sharpvpn.RouteTable.Chnroute.{
  set_chnroute, delete_chnroute, set_default_as_tunnel, add_all, del_all, host_row, half_row,
  zero_ip, half_ip,
}
use sharpvpn.RouteTable.Lines.{line_of, row_of, IsLine, IsClean}
use sharpvpn.RouteTable.Lines.Reading.{load_rows_lem}

-- What picks out a route in the kernel's table: its destination and mask, its gateway and its device.
pub record Target : Type 0 where
  pub dst : ℕ
  pub mask : ℕ
  pub gateway : ℕ
  pub dev : Str

abbrev target_of : Route → Target
target_of r = record { dst = r.rt_dst; mask = r.rt_genmask; gateway = r.rt_gateway; dev = r.rt_dev }

abbrev pub target : Request → Target
target (add_route r) = target_of r
target (del_route r) = target_of r

-- A request to delete a route.
abbrev pub deletes : Request → Bool
deletes (add_route r) = false
deletes (del_route r) = true

abbrev pub Deletes : List Request → Type 0
Deletes = All (λ r. deletes r ≡ true)

Deletes-append : (xs ys : List Request) → Deletes xs → Deletes ys → Deletes (xs ++ ys)
Deletes-append [] ys h k = k
Deletes-append (x ∷ xs) ys h k = (h.0, Deletes-append xs ys h.1 k)

module _ (sys : System) where
  del-Deletes : (row : RouteRow) → Deletes (del_route_row sys row).1
  unfolding del_route_row
  del-Deletes row = elim (Option-cases (entry_of sys row false 0)) [
    | inl e ↦ rw (e, del_route_row) tt
    | inr (route, e) ↦ rw (e, del_route_row) (refl, tt)
  ]

  del_all-Deletes : (rows : List RouteRow) → Deletes (del_all sys rows)
  del_all-Deletes [] = tt
  del_all-Deletes (row ∷ rows) =
      Deletes-append (del_route_row sys row).1 (del_all sys rows) (del-Deletes row)
        (del_all-Deletes rows)

  -- A row is asked to be deleted exactly as it was asked to be added.
  del-add :
      (row : RouteRow) (host : Bool)
      → map target (del_route_row sys row).1 ≡ map target (add_route_row sys row host).1
  unfolding add_route_row del_route_row entry_of
  del-add row host = ground arith

  -- The string of a mask counts only where there is no number of bits.
  add_route_row_netmask :
      (row : RouteRow) (host : Bool) (m : Str) (n : ℕ)
      → row.netmask_sharp ≡ pos n
      → add_route_row sys (record row { netmask = m }) host ≡ add_route_row sys row host
  unfolding add_route_row entry_of
  add_route_row_netmask row host m n e = rw e refl

  map-append : (xs ys : List Request) → map target (xs ++ ys) ≡ map target xs ++ map target ys
  map-append [] ys = refl
  map-append (x ∷ xs) ys = ap (◌∷◌ (target x)) (map-append xs ys)

  -- Lines that give a number of bits, none of them below 0.
  abbrev pub Counted : (Str → ℤ) → Str × Str → Type 0
  Counted strtol line = (n : ℕ) × (strtol line.1 ≡ pos n)

  -- The rows of a file, deleted, are its rows added.
  del_all-add_all :
      (strtol : Str → ℤ) (row : RouteRow) (m : Str) (lines : List (Str × Str))
      → All (Counted strtol) lines
      → map target (del_all sys (map (row_of strtol (record row { netmask = m })) lines))
        ≡ map target (add_all sys (map (row_of strtol row) lines))
  del_all-add_all strtol row m [] h = refl
  del_all-add_all strtol row m ((dst, bits) ∷ lines) h =
      let this = row_of strtol row (dst, bits) in
      let that = record this { netmask = m } in
      map-append (del_route_row sys that).1
        (del_all sys (map (row_of strtol (record row { netmask = m })) lines))
      ∙ ap₂ ◌++◌
          (del-add that false
            ∙ ap (λ r. map target r.1) (add_route_row_netmask this false m h.0.0 h.0.1))
          (del_all-add_all strtol row m lines h.1)
      ∙ sym (
          map-append (add_route_row sys this false).1 (add_all sys (map (row_of strtol row) lines)))

  module _ (strtol : Str → ℤ) (files : Str → Option (List Str)) (default_row : RouteRow) (c : ℕ)
      (name : Str) (lines : List (Str × Str)) where
    -- What setting the routes of a file asks for.
    set_chnroute_requests :
        (memory : ℕ → ℕ) (remote_ip : Str) (t : RouteTable)
        → files (c ∷ name) ≡ some (map line_of lines)
        → All IsLine lines
        → IsClean memory 0 100
        → let row = host_row sys default_row remote_ip in
          set_chnroute sys strtol files memory default_row (c ∷ name) remote_ip t ≡ record {
            ok = true;
            requests =
                (add_route_row sys row true).1 ++ add_all sys (map (row_of strtol row) lines);
            table = record t {
              default_gateway = default_row.gateway;
              default_dev = default_row.dev;
              modified = true;
            };
          }
    unfolding set_chnroute
    set_chnroute_requests memory remote_ip t e h k =
        let row = host_row sys default_row remote_ip in
        ground (arith, e, load_rows_lem strtol lines memory row h k)

    -- What deleting them asks for.
    delete_chnroute_requests :
        (memory : ℕ → ℕ) (t : RouteTable)
        → t.modified ≡ true
        → files (c ∷ name) ≡ some (map line_of lines)
        → All IsLine lines
        → IsClean memory 0 100
        → let lower = half_row zero_ip t.tunnel_gateway t.default_dev in
          let upper = half_row half_ip t.tunnel_gateway t.default_dev in
          let row = record upper { gateway = t.default_gateway } in
          delete_chnroute sys strtol files memory (c ∷ name) t ≡ record {
            ok = true;
            requests =
                ((del_route_row sys lower).1 ++ (del_route_row sys upper).1)
                ++ del_all sys (map (row_of strtol row) lines);
            table = record t { modified = false };
          }
    unfolding delete_chnroute
    delete_chnroute_requests memory t m e h k =
        let row = record (half_row half_ip t.tunnel_gateway t.default_dev) {
          gateway = t.default_gateway;
        } in
        ground (arith, m, e, load_rows_lem strtol lines memory row h k)

    -- The rows that the file's lines give.
    abbrev file_rows : Str → List RouteRow
    file_rows remote_ip = map (row_of strtol (host_row sys default_row remote_ip)) lines

    -- The routes of the file's lines are added after that of the server, and once the tunnel is the
    -- default, deleting asks for each of them again, in order, with the same destination, mask,
    -- gateway and device. Before that it asks for the two routes of the tunnel, but with the device
    -- of the default route in place of the tunnel's; the route of the server is not asked for.
    pub delete_chnroute-set_chnroute :
        (memory memory' : ℕ → ℕ) (remote_ip tunnel_name gateway : Str) (t : RouteTable)
        → files (c ∷ name) ≡ some (map line_of lines)
        → All IsLine lines
        → All (Counted strtol) lines
        → IsClean memory 0 100
        → IsClean memory' 0 100
        → let set = set_chnroute sys strtol files memory default_row (c ∷ name) remote_ip t in
          let up = set_default_as_tunnel sys tunnel_name gateway set.table in
          let deleted = delete_chnroute sys strtol files memory' (c ∷ name) up.table in
          let adds = add_all sys (file_rows remote_ip) in
          (set.requests ≡ (add_route_row sys (host_row sys default_row remote_ip) true).1 ++ adds)
          × (map target deleted.requests
              ≡ map target (set_default_as_tunnel sys default_row.dev gateway t).requests
                ++ map target adds)
          × Deletes deleted.requests
          × (deleted.table.modified ≡ false)
    unfolding set_default_as_tunnel
    delete_chnroute-set_chnroute memory memory' remote_ip tunnel_name gateway t e h n k k' =
        let row = host_row sys default_row remote_ip in
        let lower = half_row zero_ip gateway default_row.dev in
        let upper = half_row half_ip gateway default_row.dev in
        let table = record t {
          default_gateway = default_row.gateway;
          default_dev = default_row.dev;
          modified = true;
          tunnel_gateway = gateway;
        } in
        let set = set_chnroute_requests memory remote_ip t e h k in
        let deleted = delete_chnroute_requests memory' table refl e h k' in
        rw set (
          rw deleted (
            refl,
            map-append ((del_route_row sys lower).1 ++ (del_route_row sys upper).1) _
                ∙ ap₂ ◌++◌
                    (map-append (del_route_row sys lower).1 (del_route_row sys upper).1
                      ∙ ap₂ ◌++◌ (del-add lower false) (del-add upper false)
                      ∙ sym (
                          map-append (add_route_row sys lower false).1
                            (add_route_row sys upper false).1))
                    (del_all-add_all strtol row half_ip lines n),
            Deletes-append ((del_route_row sys lower).1 ++ (del_route_row sys upper).1) _
                (Deletes-append (del_route_row sys lower).1 (del_route_row sys upper).1
                  (del-Deletes lower) (del-Deletes upper))
                (del_all-Deletes _),
            refl,
          ))
