-- ===== src/RouteTable/Default/Reading.antt =====
-- What the loops over the table of routes read: the fields of each line, and the last default route.
use sharpvpn.Base.{
  same_string, Str, ℕ, ◌+◌, ◌<◌, ◌≡◌, refl, ap, ap₂, sym, ◌∙◌, List, [], ◌∷◌, ◌++◌, true, false,
  ◌==◌, if◌then◌else◌, some, length, take, All, arith,
}
use mathlib.Core.List.{append-nil, append_assoc}
use sharpvpn.RouteTable.{RouteRow}
use sharpvpn.RouteTable.Chnroute.{zero_ip}
use sharpvpn.RouteTable.Default.{
  trim, last_not_blank, split_tabs, reversed, row_of_fields, read_rows, zeros, pick, last_row,
  get_default_route,
}

module _ (address_of_hex : Str → Str) where
  pick_none :
      (rows : List RouteRow) (row : RouteRow)
      → All (λ q. same_string q.dst zeros ≡ false) rows
      → pick address_of_hex rows row ≡ row
  unfolding pick
  pick_none [] row h = refl
  pick_none (q ∷ rows) row h = ground (arith, h.0, pick_none rows row h.1)

  -- A row as `r`, for all addresses.
  abbrev default_of : RouteRow → RouteRow → RouteRow
  default_of r row = record row {
    dst = zero_ip;
    dev = r.dev;
    gateway = address_of_hex r.gateway;
    netmask = address_of_hex r.netmask;
  }

  -- The row that is found is made of the last row for all addresses.
  pick-last :
      (before after : List RouteRow) (r row : RouteRow)
      → same_string r.dst zeros ≡ true
      → All (λ q. same_string q.dst zeros ≡ false) after
      → pick address_of_hex (before ++ (r ∷ after)) row
        ≡ default_of r (pick address_of_hex before row)
  unfolding pick
  pick-last [] after r row e h = ground (arith, e, pick_none after (default_of r row) h)
  pick-last (b ∷ before) after r row e h =
      pick-last before after r (if same_string b.dst zeros then default_of b row else row) e h

abbrev HasNoTab : Str → Type 0
HasNoTab s = All (λ c. (c == b'\t') ≡ false) s

-- Fields, each with a tab behind it.
abbrev tabbed : List Str → Str
tabbed [] = []
tabbed (f ∷ fs) = f ++ (b'\t' ∷ tabbed fs)

-- A line of the table: its fields, then a last one, whose last character is no blank.
pub record IsTableLine (line : Str) (row : RouteRow) : Type 0 where
  pub arr : List Str
  pub last : Str
  pub c : ℕ
  pub splits : line ≡ tabbed arr ++ (last ++ (c ∷ []))
  pub fields : All (λ f. HasNoTab f × (0 < length f)) arr
  pub last_plain : HasNoTab last
  pub c_plain : (c == b' ') ≡ false
  pub fits : length line < 1500
  pub gives : row_of_fields arr ≡ some row

last_not_blank-append :
    (s : Str) (c : ℕ) → (c == b' ') ≡ false → last_not_blank (s ++ (c ∷ [])) ≡ some (length s)
last_not_blank-append [] c h = ground (arith, h)
last_not_blank-append (x ∷ s) c h = ground (arith, last_not_blank-append s c h)

take-append : (s t : Str) → take (length s) (s ++ t) ≡ s
take-append [] t = refl
take-append (x ∷ s) t = ap (◌∷◌ x) (take-append s t)

trim-append : (s : Str) (c : ℕ) → (c == b' ') ≡ false → trim (s ++ (c ∷ [])) ≡ s
unfolding trim
trim-append s c h = ground (arith, last_not_blank-append s c h, take-append s (c ∷ []))

split_tabs-HasNoTab :
    (f s acc : Str) → HasNoTab f → split_tabs (f ++ s) acc ≡ split_tabs s (reversed f acc)
unfolding split_tabs
split_tabs-HasNoTab [] s acc h = refl
split_tabs-HasNoTab (x ∷ f) s acc h = ground (arith, h.0, split_tabs-HasNoTab f s (x ∷ acc) h.1)

reversed_onto : (s acc t : Str) → reversed (reversed s acc) t ≡ reversed acc (s ++ t)
reversed_onto [] acc t = refl
reversed_onto (x ∷ s) acc t = reversed_onto s (x ∷ acc) t

length-reversed : (s acc : Str) → length (reversed s acc) ≡ length s + length acc
length-reversed [] acc = omega arith
length-reversed (x ∷ s) acc = omega (arith, length-reversed s (x ∷ acc))

reversed_twice : (s : Str) → reversed (reversed s []) [] ≡ s
reversed_twice s = reversed_onto s [] [] ∙ append-nil s

split_tabs_dropped : (s acc : Str) → HasNoTab s → split_tabs s acc ≡ []
unfolding split_tabs
split_tabs_dropped [] acc p = refl
split_tabs_dropped (x ∷ s) acc p = ground (arith, p.0, split_tabs_dropped s (x ∷ acc) p.1)

split_tabs_at_tab :
    (field s : Str)
    → 0 < length field
    → split_tabs (b'\t' ∷ s) field ≡ reversed field [] ∷ split_tabs s []
unfolding split_tabs
split_tabs_at_tab field s h = ground (arith, h)

-- The fields come out as they went in; what follows the last tab is dropped.
split_tabs-tabbed :
    (arr : List Str) (last : Str)
    → All (λ f. HasNoTab f × (0 < length f)) arr
    → HasNoTab last
    → split_tabs (tabbed arr ++ last) [] ≡ arr
split_tabs-tabbed [] last h p = split_tabs_dropped last [] p
split_tabs-tabbed (f ∷ arr) last h p =
    ap (λ s. split_tabs s []) (append_assoc f (b'\t' ∷ tabbed arr) last)
    ∙ split_tabs-HasNoTab f (b'\t' ∷ (tabbed arr ++ last)) [] h.0.0
    ∙ split_tabs_at_tab (reversed f []) (tabbed arr ++ last)
        (omega (arith, length-reversed f [], h.0.1))
    ∙ ap₂ ◌∷◌ (reversed_twice f) (split_tabs-tabbed arr last h.1 p)

read_row :
    (line : Str) (row : RouteRow)
    → IsTableLine line row
    → row_of_fields (split_tabs (trim line) []) ≡ some row
read_row line row t =
    ap (λ l. row_of_fields (split_tabs (trim l) []))
      (t.splits ∙ sym (append_assoc (tabbed t.arr) t.last (t.c ∷ [])))
    ∙ ap (λ l. row_of_fields (split_tabs l [])) (trim-append (tabbed t.arr ++ t.last) t.c t.c_plain)
    ∙ ap row_of_fields (split_tabs-tabbed t.arr t.last t.fields t.last_plain)
    ∙ t.gives

-- Lines with the rows that they give.
abbrev pub IsTable : List (Str × RouteRow) → Type 0
IsTable [] = Unit {0}
IsTable ((line, row) ∷ table) = IsTableLine line row × IsTable table

abbrev pub lines_of : List (Str × RouteRow) → List Str
lines_of [] = []
lines_of ((line, row) ∷ table) = line ∷ lines_of table

abbrev pub rows_of : List (Str × RouteRow) → List RouteRow
rows_of [] = []
rows_of ((line, row) ∷ table) = row ∷ rows_of table

read_rows-IsTable :
    (table : List (Str × RouteRow))
    → IsTable table
    → read_rows (lines_of table) ≡ some (rows_of table)
unfolding read_rows
read_rows-IsTable [] h = refl
read_rows-IsTable ((line, row) ∷ table) h =
    ground (arith, read_row line row h.0, h.0.fits, read_rows-IsTable table h.1)

-- From a table of lines of at least eight fields that fit the buffer and end in no blank, with a
-- last one for all addresses, the route that is found is that of this last one: its device, and its
-- gateway and mask as addresses.
pub get_default_route_lem :
    (address_of_hex : Str → Str) (table : List (Str × RouteRow)) (before after : List RouteRow)
    (r : RouteRow)
    → IsTable table
    → rows_of table ≡ before ++ (r ∷ after)
    → same_string r.dst zeros ≡ true
    → All (λ q. same_string q.dst zeros ≡ false) after
    → (row : RouteRow) × (get_default_route address_of_hex (some (lines_of table)) ≡ some row)
      × (row.dst ≡ zero_ip)
      × (row.dev ≡ r.dev)
      × (row.gateway ≡ address_of_hex r.gateway)
      × (row.netmask ≡ address_of_hex r.netmask)
unfolding get_default_route
get_default_route_lem address_of_hex table before after r t e z h =
    let start = record (last_row (rows_of table)) { dst = [] } in
    (
      default_of address_of_hex r (pick address_of_hex before start),
      ground (arith, read_rows-IsTable table t)
          ∙ ap (λ rows. some (pick address_of_hex rows start)) e
          ∙ ap some (pick-last address_of_hex before after r start z h),
      refl,
      refl,
      refl,
      refl,
    )
