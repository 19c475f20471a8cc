-- ===== src/RouteTable/Windows/Restore.antt =====
-- What is left of the routes on Windows once they are deleted.
use sharpvpn.Base.{
  Str, address, ℕ, ◌≡◌, refl, ap, ap₂, ◌∙◌, List, [], ◌∷◌, ◌++◌, map, true, false, Option, none,
  some, ℤ, All, arith,
}
use sharpvpn.RouteTable.{new_row}
use sharpvpn.RouteTable.Lines.{line_of, IsLine, IsClean}
use sharpvpn.RouteTable.Lines.Reading.{load_rows_lem}
use sharpvpn.RouteTable.Netmask.{high_bits, sharp_mask_lem}
use sharpvpn.RouteTable.Windows.{
  IpRow, Kernel, Memory, Run, returned, create, delete, command, ask, address_of, targets, on_row,
  get_default_route, delete_defaults, set_default_as_tunnel,
}
use sharpvpn.RouteTable.Windows.Chnroute.{
  set_chnroute, add_lines, host_row, delete_chnroute, delete_lines, dns_back,
}
use sharpvpn.RouteTable.Windows.Entries.{
  Parsed, entries, last_entry, entries-entry, entries-last_entry, written, on_rows-entries,
}

module _ (k : Kernel) (memory : Memory) (strtol : Str → ℤ) where
  -- The request for the server's route.
  host_entry : (server : ℕ) (d : IpRow) → IpRow
  host_entry server d = record d { dest = server; mask = k.htonl (high_bits 32 0) }

  on_row-host :
      (remote_ip : Str) (server gateway : ℕ) (d : IpRow) (r : Run)
      → k.inet_pton remote_ip ≡ address server
      → address_of memory.gateway (k.inet_pton get_default_route.0.gateway) ≡ some gateway
      → r.table.default_route_row ≡ some d
      → on_row k memory create (host_row remote_ip) r ≡ (
        returned (k.succeeds (create (host_entry server d))),
        ask (create (host_entry server d)) (written k memory strtol (host_entry server d) r),
      )
  unfolding on_row targets host_entry
  on_row-host remote_ip server gateway d r p g e =
      ground (arith, p, g, e, sharp_mask_lem 32 (omega arith))

  set_lem :
      (files : Str → Option (List Str)) (buf : ℕ → ℕ) (c : ℕ) (name remote_ip : Str)
      (server gateway : ℕ) (lines : List (Str × Str)) (d : IpRow) (r : Run)
      (h : All (Parsed k memory strtol) lines)
      → files (c ∷ name) ≡ some (map line_of lines)
      → All IsLine lines
      → IsClean buf 0 100
      → k.inet_pton remote_ip ≡ address server
      → address_of memory.gateway (k.inet_pton get_default_route.0.gateway) ≡ some gateway
      → r.table.default_route_row ≡ some d
      → set_chnroute k memory strtol files buf (c ∷ name) remote_ip r ≡ (
        returned true,
        record r {
          table = record r.table {
            default_route_row = some (last_entry k memory strtol (host_entry server d) lines h);
            modified = true;
          };
          requests =
              (r.requests ++ (create (host_entry server d) ∷ []))
              ++ map create (entries k memory strtol (host_entry server d) lines h);
        },
      )
  unfolding set_chnroute add_lines
  set_lem files buf c name remote_ip server gateway lines d r h f l b p g e =
      let d' = host_entry server d in
      let r' = record (ask (create d') (written k memory strtol d' r)) {
        table = record r.table { default_route_row = some d'; modified = true };
      } in
      let rows =
        on_rows-entries k memory strtol create (host_row remote_ip) gateway lines d' r' h g refl in
      ground (
        arith,
        f,
        on_row-host remote_ip server gateway d r p g e,
        load_rows_lem strtol lines buf (host_row remote_ip) l b,
        rows,
      )

  delete_lem :
      (files : Str → Option (List Str)) (buf : ℕ → ℕ) (c : ℕ) (name : Str) (gateway : ℕ)
      (lines : List (Str × Str)) (d : IpRow) (r : Run) (h : All (Parsed k memory strtol) lines)
      → files (c ∷ name) ≡ some (map line_of lines)
      → All IsLine lines
      → IsClean buf 0 100
      → address_of memory.gateway (k.inet_pton []) ≡ some gateway
      → r.table.default_route_row ≡ some d
      → r.table.modified ≡ true
      → ((delete_chnroute k memory strtol files buf (c ∷ name) r).0 ≡ returned true)
        × ((delete_chnroute k memory strtol files buf (c ∷ name) r).1.requests
            ≡ (((r.requests ++ (delete r.table.tunnel_route ∷ []))
                  ++ (create r.table.default_origin_backup ∷ []))
                ++ map delete (entries k memory strtol d lines h))
              ++ (command (dns_back k r.table) ∷ []))
        × ((delete_chnroute k memory strtol files buf (c ∷ name) r).1.table.modified ≡ false)
  unfolding delete_chnroute delete_lines
  delete_lem files buf c name gateway lines d r h f l b g e m =
      let back = ask (create r.table.default_origin_backup) (ask (delete r.table.tunnel_route) r) in
      let rows = on_rows-entries k memory strtol delete new_row gateway lines d back h g e in
      ground (arith, f, m, load_rows_lem strtol lines buf new_row l b, rows)

delete_defaults-table :
    (k : Kernel) (memory : Memory) (routes : List IpRow) (r : Run)
    → (delete_defaults k memory routes r).1.table ≡ r.table
unfolding delete_defaults
delete_defaults-table k memory [] r = refl
delete_defaults-table k memory (route ∷ routes) r = ground (
  arith,
  delete_defaults-table k memory routes r,
  delete_defaults-table k memory routes (ask (delete route) r),
)

-- Setting the tunnel as the default leaves all of the object but `tunnel_route`.
tunnel_keeps :
    (k : Kernel) (memory : Memory) (tunnel : ℕ) (gateway : Str) (r : Run)
    → let t = (set_default_as_tunnel k memory tunnel gateway r).1.table in
      t ≡ record r.table { tunnel_route = t.tunnel_route }
unfolding set_default_as_tunnel
tunnel_keeps k memory tunnel gateway r = go k.routes refl
  where
    go :
        (o : Option (List IpRow))
        → k.routes ≡ o
        → (set_default_as_tunnel k memory tunnel gateway r).1.table ≡ record r.table {
          tunnel_route = (set_default_as_tunnel k memory tunnel gateway r).1.table.tunnel_route;
        }
    go none e = ground (arith, e)
    go (some routes) e = ground (arith, e, delete_defaults-table k memory routes r)

-- On Windows, once the default route is known: the lines of a file, each within the buffer, with an
-- address and at most 32 bits, are asked for as routes behind that of the server, all of them made
-- of the default route. Whatever becomes of setting the tunnel as the default, deleting asks for the
-- tunnel's route to go and the kept default route to come back, for each of the lines' routes, in
-- order, to go, and for the name servers; the server's own route is not asked for.
pub delete_chnroute_lem :
    (k other : Kernel) (memory memory' : Memory) (strtol : Str → ℤ)
    (files : Str → Option (List Str)) (buf buf' : ℕ → ℕ) (c : ℕ) (name remote_ip gateway : Str)
    (server first second tunnel : ℕ) (lines : List (Str × Str)) (d : IpRow) (r : Run)
    (h : All (Parsed k memory strtol) lines)
    → files (c ∷ name) ≡ some (map line_of lines)
    → All IsLine lines
    → IsClean buf 0 100
    → IsClean buf' 0 100
    → k.inet_pton remote_ip ≡ address server
    → address_of memory.gateway (k.inet_pton get_default_route.0.gateway) ≡ some first
    → address_of memory.gateway (k.inet_pton []) ≡ some second
    → r.table.default_route_row ≡ some d
    → let set = set_chnroute k memory strtol files buf (c ∷ name) remote_ip r in
      let up = set_default_as_tunnel other memory' tunnel gateway set.1 in
      let deleted = delete_chnroute k memory strtol files buf' (c ∷ name) up.1 in
      let added = entries k memory strtol d lines h in
      (set.0 ≡ returned true)
      × (set.1.requests
          ≡ (r.requests
              ++ (create (record d { dest = server; mask = k.htonl (high_bits 32 0) }) ∷ []))
            ++ map create added)
      × (deleted.0 ≡ returned true)
      × (deleted.1.requests
          ≡ (((up.1.requests ++ (delete up.1.table.tunnel_route ∷ []))
                ++ (create r.table.default_origin_backup ∷ []))
              ++ map delete added)
            ++ (command (dns_back k r.table) ∷ []))
delete_chnroute_lem k other memory memory' strtol files buf buf' c name remote_ip gateway server
      first second tunnel lines d r h f l b b' p g g' e =
    let d' = record d { dest = server; mask = k.htonl (high_bits 32 0) } in
    let last = last_entry k memory strtol d' lines h in
    let after : Run = record r {
      table = record r.table { default_route_row = some last; modified = true };
      requests =
          (r.requests ++ (create d' ∷ [])) ++ map create (entries k memory strtol d' lines h);
    } in
    let set : set_chnroute k memory strtol files buf (c ∷ name) remote_ip r
        ≡ (returned true, after) =
      unfold host_entry in
      set_lem k memory strtol files buf c name remote_ip server first lines d r h f l b p g e in
    let up = (set_default_as_tunnel other memory' tunnel gateway after).1 in
    let keeps = tunnel_keeps other memory' tunnel gateway after in
    let deleted =
      delete_lem k memory strtol files buf' c name second lines last up h f l b' g'
        (ap (λ t. t.default_route_row) keeps) (ap (λ t. t.modified) keeps) in
    let backup : up.table.default_origin_backup ≡ r.table.default_origin_backup =
      ap (λ t. t.default_origin_backup) keeps in
    let dns : dns_back k up.table ≡ dns_back k r.table = ap (dns_back k) keeps in
    let added : entries k memory strtol d' lines h ≡ entries k memory strtol d lines h =
      entries-entry k memory strtol d server (k.htonl (high_bits 32 0)) lines h in
    let same : entries k memory strtol last lines h ≡ entries k memory strtol d lines h =
      entries-last_entry k memory strtol d' lines lines h h ∙ added in
    rw set (
      refl,
      ap (λ es. (r.requests ++ (create d' ∷ [])) ++ map create es) added,
      deleted.0,
      deleted.1
          ∙ ap
              (λ b.
                (((up.requests ++ (delete up.table.tunnel_route ∷ [])) ++ (create b ∷ []))
                  ++ map delete (entries k memory strtol last lines h))
                ++ (command (dns_back k up.table) ∷ []))
              backup
          ∙ ap₂
              (λ es s.
                (((up.requests ++ (delete up.table.tunnel_route ∷ []))
                    ++ (create r.table.default_origin_backup ∷ []))
                  ++ map delete es)
                ++ (command s ∷ []))
              same dns,
    )
