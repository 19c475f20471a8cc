-- ===== src/RouteTable/Default.antt =====
-- `get_default_route` of src/RouteTable.cpp on Linux: the lines of /proc/net/route, and the row of
-- the default route among them. The hexadecimal numbers are read and printed by the C library.
pub mod Reading
use sharpvpn.Base.{
  same_string, Str, ℕ, zero, suc, ◌+◌, ◌-◌, ◌<◌, ◌≤◌, ◌≡◌, refl, ap, ◌∙◌, List, [], ◌∷◌, ◌++◌, Bool,
  true, false, not, ◌&&◌, ◌==◌, ltb, if◌then◌else◌, Option, none, some, length, take, All, arith,
  ap₂, sym,
}
use mathlib.Core.List.{append-nil, append_assoc}
use sharpvpn.RouteTable.{RouteRow, new_row}
use sharpvpn.RouteTable.Chnroute.{zero_ip}

abbrev pub last_not_blank : Str → Option ℕ
last_not_blank [] = none
last_not_blank (c ∷ s) = elim (last_not_blank s) [
  | some n ↦ some (suc n)
  | none ↦ if c == b' ' then none else some 0
]

-- `tem.substr(0, tem.find_last_not_of(' '))`: up to the last character that is no blank, and
-- without it. Where there is none, the position is the greatest number, and all is kept.
unfoldable pub trim : Str → Str
trim s = elim (last_not_blank s) [ none ↦ s | some n ↦ take n s ]

abbrev pub reversed : Str → Str → Str
reversed [] acc = acc
reversed (x ∷ xs) acc = reversed xs (x ∷ acc)

-- The loop over the characters: `field` is what stands between `start` and `i`, backwards.
unfoldable pub split_tabs : Str → Str → List Str
split_tabs [] field = []
split_tabs (c ∷ s) field =
    let ended = split_tabs s [] in
    let on = split_tabs s (c ∷ field) in
    if c == b'\t' then (if ltb 0 (length field) then reversed field [] ∷ ended else ended) else on

-- `arr[n]`; `none` is beyond the end, which is undefined.
abbrev nth : List Str → ℕ → Option Str
nth [] n = none
nth (x ∷ xs) zero = some x
nth (x ∷ xs) (suc n) = nth xs n

-- The row of a line's fields; `netmask_sharp` stays as it was.
abbrev pub row_of_fields : List Str → Option RouteRow
row_of_fields arr = elim (nth arr 0) [
  | none ↦ none
  | some dev ↦ elim (nth arr 1) [
    | none ↦ none
    | some dst ↦ elim (nth arr 2) [
      | none ↦ none
      | some gateway ↦ elim (nth arr 7) [
        | none ↦ none
        | some netmask ↦
            some (record new_row { dev = dev; dst = dst; gateway = gateway; netmask = netmask })
      ]
    ]
  ]
]

-- The loop over the lines, until `getline(buf, 1500)` fails.
unfoldable pub read_rows : List Str → Option (List RouteRow)
read_rows [] = some []
read_rows (line ∷ lines) =
    let rest = read_rows lines in
    if ltb 1499 (length line) then some [] else elim (row_of_fields (split_tabs (trim line) [])) [
      | none ↦ none
      | some row ↦ elim rest [ none ↦ none | some rows ↦ some (row ∷ rows) ]
    ]

-- "00000000"
abbrev pub zeros : Str
zeros = b'0' ∷ b'0' ∷ b'0' ∷ b'0' ∷ b'0' ∷ b'0' ∷ b'0' ∷ b'0' ∷ []

-- The row that the loop over the lines leaves in `route`.
abbrev pub last_row : List RouteRow → RouteRow
last_row [] = new_row
last_row (r ∷ []) = r
last_row (r ∷ q ∷ rows) = last_row (q ∷ rows)

module _ (address_of_hex : Str → Str) where
  -- The loop over the rows; `address_of_hex` is `strtol` with base 16, then `inet_ntoa`.
  unfoldable pub pick : List RouteRow → RouteRow → RouteRow
  pick [] row = row
  pick (r ∷ rows) row =
      let found = record row {
        dst = zero_ip;
        dev = r.dev;
        gateway = address_of_hex r.gateway;
        netmask = address_of_hex r.netmask;
      } in
      pick rows (if same_string r.dst zeros then found else row)

  -- `none` is a line with too few fields; a file that does not open is `none` to begin with.
  unfoldable pub get_default_route : Option (List Str) → Option RouteRow
  get_default_route none = some new_row
  get_default_route (some lines) = elim (read_rows lines) [
    | none ↦ none
    | some rows ↦ some (pick rows (record (last_row rows) { dst = [] }))
  ]
