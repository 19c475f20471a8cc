-- ===== src/RouteTable/Windows/Entries.antt =====
-- The loops over the lines of a file on Windows, where each line gives an address and a mask.
use sharpvpn.Base.{
  Str, address, ℕ, ◌≡◌, refl, sym, ap, ap₂, ◌∙◌, List, [], ◌∷◌, ◌++◌, map, Bool, true, some, ℤ, pos,
  All, arith,
}
use mathlib.Core.List.{append-nil, append_assoc}
use sharpvpn.RouteTable.{RouteRow}
use sharpvpn.RouteTable.Lines.{row_of}
use sharpvpn.RouteTable.Netmask.{sharp_mask}
use sharpvpn.RouteTable.Windows.{
  IpRow, Kernel, Memory, Run, returned, Request, ask, address_of, targets, on_row,
}
use sharpvpn.RouteTable.Windows.Chnroute.{on_rows}

module _ (k : Kernel) (memory : Memory) (strtol : Str → ℤ) where
  -- A line whose address is one, and whose number makes a mask.
  abbrev pub Parsed : Str × Str → Type 0
  Parsed line =
      (dst : ℕ) × (n : ℕ) × (mask : ℕ) × (k.inet_pton line.0 ≡ address dst)
      × (strtol line.1 ≡ pos n)
      × (sharp_mask n ≡ some mask)

  -- A route made of another, with the destination and the mask of a line.
  abbrev pub entry : IpRow → (line : Str × Str) → Parsed line → IpRow
  entry d line h = record d { dest = h.0; mask = k.htonl h.2 }

  abbrev pub entries : IpRow → (lines : List (Str × Str)) → All Parsed lines → List IpRow
  entries d [] h = []
  entries d (line ∷ lines) h = entry d line h.0 ∷ entries d lines h.1

  -- What the lines leave in the copy of the default route.
  abbrev pub last_entry : IpRow → (lines : List (Str × Str)) → All Parsed lines → IpRow
  last_entry d [] h = d
  last_entry d (line ∷ lines) h = last_entry (entry d line h.0) lines h.1

  pub entries-entry :
      (d : IpRow) (dst mask : ℕ) (lines : List (Str × Str)) (h : All Parsed lines)
      → entries (record d { dest = dst; mask = mask }) lines h ≡ entries d lines h
  entries-entry d dst mask [] h = refl
  entries-entry d dst mask (line ∷ lines) h =
      ap (◌∷◌ (entry d line h.0)) (entries-entry d dst mask lines h.1)

  pub entries-last_entry :
      (d : IpRow) (ls lines : List (Str × Str)) (g : All Parsed ls) (h : All Parsed lines)
      → entries (last_entry d ls g) lines h ≡ entries d lines h
  entries-last_entry d [] lines g h = refl
  entries-last_entry d (line ∷ ls) lines g h =
      entries-last_entry (entry d line g.0) ls lines g.1 h
      ∙ entries-entry d g.0.0 (k.htonl g.0.2) lines h

  abbrev pub written : IpRow → Run → Run
  written d r = record r { table = record r.table { default_route_row = some d } }

  pub on_row-entry :
      (request : IpRow → Request) (row : RouteRow) (gateway : ℕ) (line : Str × Str) (d : IpRow)
      (r : Run) (h : Parsed line)
      → address_of memory.gateway (k.inet_pton row.gateway) ≡ some gateway
      → r.table.default_route_row ≡ some d
      → on_row k memory request (row_of strtol row line) r ≡ (
        returned (k.succeeds (request (entry d line h))),
        ask (request (entry d line h)) (written (entry d line h) r),
      )
  unfolding on_row targets
  on_row-entry request row gateway line d r h g e = ground (arith, g, e, h.3, h.4, h.5)

  on_rows-cons :
      (request : IpRow → Request) (row : RouteRow) (rows : List RouteRow) (b : Bool) (r r' : Run)
      → on_row k memory request row r ≡ (returned b, r')
      → on_rows k memory request (row ∷ rows) r ≡ on_rows k memory request rows r'
  unfolding on_rows
  on_rows-cons request row rows b r r' e = ground (arith, e)

  -- A loop over the lines of a file.
  pub on_rows-entries :
      (request : IpRow → Request) (row : RouteRow) (gateway : ℕ) (lines : List (Str × Str))
      (d : IpRow) (r : Run) (h : All Parsed lines)
      → address_of memory.gateway (k.inet_pton row.gateway) ≡ some gateway
      → r.table.default_route_row ≡ some d
      → on_rows k memory request (map (row_of strtol row) lines) r ≡ (
        returned true,
        record r {
          table = record r.table { default_route_row = some (last_entry d lines h) };
          requests = r.requests ++ map request (entries d lines h);
        },
      )
  unfolding on_rows
  on_rows-entries request row gateway [] d r h g e =
      ap₂
        (λ o q. (
          returned true,
          record r { table = record r.table { default_route_row = o }; requests = q },
        ))
        e (sym (append-nil r.requests))
  on_rows-entries request row gateway (line ∷ lines) d r h g e =
      let d' = entry d line h.0 in
      on_rows-cons request (row_of strtol row line) (map (row_of strtol row) lines) _ r _
        (on_row-entry request row gateway line d r h.0 g e)
      ∙ (on_rows-entries request row gateway lines d' (ask (request d') (written d' r)) h.1 g refl
          ∙ ap
              (λ q. (
                returned true,
                record r {
                  table = record r.table { default_route_row = some (last_entry d' lines h.1) };
                  requests = q;
                },
              ))
              (append_assoc r.requests (request d' ∷ []) (map request (entries d' lines h.1))
                ∙ ap (λ es. r.requests ++ (request d' ∷ map request es))
                    (entries-entry d h.0.0 (k.htonl h.0.2) lines h.1)))
