-- ===== src/RouteTable/Lines.antt =====
-- The reading of a file of routes, one `address/bits` to a line, in src/RouteTable.cpp. `set_chnroute`
-- and `delete_chnroute` write out the same loop over a buffer of 100 bytes, which nothing clears.
pub mod Buffer
pub mod Reading
use sharpvpn.Base.{
  Str, ℕ, zero, suc, ◌+◌, ◌-◌, ◌≤◌, ◌<◌, ◌≡◌, ◌≢◌, refl, ap, ap₂, ◌∙◌, List, [], ◌∷◌, ◌++◌, Bool,
  true, false, ◌==◌, ltb, leb, if◌then◌else◌, Option, none, some, ℤ, arith, length, update, copy,
  All, map, read, copy_after, read-copy_self, read-copy_before, read-copy_after, cons_split,
  read-append_split, sym, read-append, length-append,
}
use native.Mathlib.Nat.{add-zero, zero-add}
use native.Mathlib.Decide.{dec_lt}
use mathlib.Core.List.{append_assoc}
use sharpvpn.RouteTable.{RouteRow}

-- The C string that begins at `i`, of at most `fuel` characters.
unfoldable pub c_string : ℕ → (ℕ → ℕ) → ℕ → Str
c_string zero buf i = []
c_string (suc fuel) buf i =
    let rest = c_string fuel buf (i + 1) in if buf i == 0 then [] else buf i ∷ rest

-- `getline(buf, 100)`: `none` where it fails, as it does on a line of more than 99 characters.
unfoldable pub getline : Str → (ℕ → ℕ) → Option (ℕ → ℕ)
getline line buf = if ltb 99 (length line) then none else some (copy buf 0 (line ++ (0 ∷ [])))

-- The loop over the buffer, `count` bytes from `i` on: every `/` ends the address and begins the
-- number of bits. `strtol` is the C library's, with the base 0.
unfoldable pub scan : (Str → ℤ) → ℕ → ℕ → (ℕ → ℕ) → RouteRow → RouteRow × (ℕ → ℕ)
scan strtol zero i buf row = (row, buf)
scan strtol (suc count) i buf row =
    let cut = update buf i 0 in
    let found = record row {
      dst = c_string 100 cut 0;
      netmask_sharp = strtol (c_string 100 cut (i + 1));
    } in
    let later = scan strtol count (i + 1) cut found in
    let on = scan strtol count (i + 1) buf row in if buf i == b'/' then later else on

-- The loop over the lines of a file: the row after each line, until `getline` fails.
unfoldable pub load_rows : (Str → ℤ) → List Str → (ℕ → ℕ) → RouteRow → List RouteRow
load_rows strtol [] buf row = []
load_rows strtol (line ∷ lines) buf row = elim (getline line buf) [
  | none ↦ []
  | some loaded ↦
      let scanned = scan strtol 100 0 loaded row in
      scanned.0 ∷ load_rows strtol lines scanned.1 scanned.0
]

-- No `/` in the buffer from `i` on, in `count` bytes.
abbrev pub IsClean : (ℕ → ℕ) → ℕ → ℕ → Type 0
IsClean buf i count = (k : ℕ) → i ≤ k → k < i + count → buf k ≢ b'/'

-- Characters of an address or of a number of bits: neither a `/` nor the end of a string.
abbrev pub IsPlain : Str → Type 0
IsPlain s = All (λ c. (c ≢ b'/') × (c ≢ 0)) s

-- A line of the file, and the row that it makes of another.
abbrev pub line_of : Str × Str → Str
line_of (dst, bits) = dst ++ (b'/' ∷ bits)

abbrev pub row_of : (Str → ℤ) → RouteRow → Str × Str → RouteRow
row_of strtol row (dst, bits) = record row { dst = dst; netmask_sharp = strtol bits }

-- A line that fits: an address and a number of bits of plain characters.
abbrev pub IsLine : Str × Str → Type 0
IsLine (dst, bits) = IsPlain dst × IsPlain bits × (length dst + length bits < 99)
