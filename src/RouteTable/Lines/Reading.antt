-- ===== src/RouteTable/Lines/Reading.antt =====
-- A file of lines is read line by line.
use sharpvpn.Base.{
  Str, ℕ, suc, ◌+◌, ◌-◌, ◌<◌, ◌≡◌, refl, ap, ap₂, ◌∙◌, List, [], ◌∷◌, ◌++◌, Option, none, some, ℤ,
  arith, length, update, copy, All, map, read, copy_after, read-copy_self, read-copy_before,
  read-copy_after, cons_split, read-append_split, sym, length-append,
}
use native.Mathlib.Nat.{zero-add}
use native.Mathlib.Decide.{dec_lt}
use mathlib.Core.List.{append_assoc}
use sharpvpn.RouteTable.{RouteRow}
use sharpvpn.RouteTable.Lines.{c_string, getline, scan, load_rows, IsClean, line_of, row_of, IsLine}
use sharpvpn.RouteTable.Lines.Buffer.{scan-IsClean, scan-plain, read-IsClean, c_string-read}

-- Where the parts of a line stand in the buffer.
record Loaded (buf old : ℕ → ℕ) (dst bits : Str) : Type 0 where
  address : read buf 0 (length dst) ≡ dst
  slash : buf (length dst) ≡ b'/'
  number : read buf (length dst + 1) (length bits) ≡ bits
  end : buf (length dst + 1 + length bits) ≡ 0
  rest : (k : ℕ) → length dst + 1 + length bits < k → buf k ≡ old k

copy-Loaded :
    (old : ℕ → ℕ) (dst bits : Str)
    → Loaded (copy old 0 (line_of (dst, bits) ++ (0 ∷ []))) old dst bits
copy-Loaded old dst bits =
    let tail = b'/' ∷ (bits ++ (0 ∷ [])) in
    let buf = copy old 0 (dst ++ tail) in
    let parts = read-append_split buf 0 dst tail (read-copy_self old 0 (dst ++ tail)) in
    let slash =
      cons_split (buf (0 + length dst)) b'/'
        (read buf (0 + length dst + 1) (length (bits ++ (0 ∷ [])))) (bits ++ (0 ∷ [])) parts.1 in
    let ends = read-append_split buf (0 + length dst + 1) bits (0 ∷ []) slash.1 in
    let none_left = cons_split (buf (0 + length dst + 1 + length bits)) 0 [] [] ends.1 in
    rw (append_assoc dst (b'/' ∷ bits) (0 ∷ [])) (record {
      address = parts.0;
      slash = ap buf (sym (zero-add (length dst))) ∙ slash.0;
      number = ap (λ i. read buf i (length bits)) (start (length dst)) ∙ ends.0;
      end = ap buf (stop (length dst) (length bits)) ∙ none_left.0;
      rest = λ k h.
          copy_after old 0 k (dst ++ tail)
            (omega (arith, h, length-append dst tail, length-append bits (0 ∷ [])));
    })
  where
    start : (n : ℕ) → n + 1 ≡ 0 + n + 1
    start n = omega arith

    stop : (n m : ℕ) → n + 1 + m ≡ 0 + n + 1 + m
    stop n m = omega arith

-- The buffer once the `/` of a line has become the end of the address.
abbrev cut_at : (ℕ → ℕ) → ℕ → ℕ → ℕ
cut_at buf n = update buf n 0

module _ (buf old : ℕ → ℕ) (dst bits : Str) (line : IsLine (dst, bits))
    (l : Loaded buf old dst bits) where
  cut_address : read (cut_at buf (length dst)) 0 (length dst) ≡ dst
  cut_address = read-copy_before buf 0 (length dst) (length dst) (0 ∷ []) (omega arith) ∙ l.address

  cut_number : read (cut_at buf (length dst)) (length dst + 1) (length bits) ≡ bits
  cut_number =
      read-copy_after buf (length dst + 1) (length bits) (length dst) (0 ∷ []) (omega arith)
      ∙ l.number

  cut_end : cut_at buf (length dst) (length dst + 1 + length bits) ≡ 0
  cut_end =
      copy_after buf (length dst) (length dst + 1 + length bits) (0 ∷ []) (omega arith) ∙ l.end

  -- Nothing of the line, nor of what the buffer held before, is a `/` any more.
  cut-IsClean : IsClean old 0 100 → IsClean (cut_at buf (length dst)) 0 100
  cut-IsClean c k lo hi = elim (dec_lt k (length dst)) [
    | yes p ↦
        read-IsClean (cut_at buf (length dst)) 0 dst line.0 cut_address k lo (omega (arith, p))
    | no p ↦ elim (dec_lt (length dst) k) [
      | no q ↦ ground (arith, p, q)
      | yes q ↦ elim (dec_lt k (length dst + 1 + length bits)) [
        | yes r ↦
            read-IsClean (cut_at buf (length dst)) (length dst + 1) bits line.1 cut_number k
              (omega (arith, q)) (omega (arith, r))
        | no r ↦ elim (dec_lt (length dst + 1 + length bits) k) [
          | no t ↦ ground (arith, r, t, cut_end)
          | yes t ↦ ground (arith, q, l.rest k t, c k lo hi)
        ]
      ]
    ]
  ]

  cut_row : (Str → ℤ) → RouteRow → RouteRow
  cut_row strtol row = record row {
    dst = c_string 100 (cut_at buf (length dst)) 0;
    netmask_sharp = strtol (c_string 100 (cut_at buf (length dst)) (length dst + 1));
  }

  cut_row_lem :
      (strtol : Str → ℤ) (row : RouteRow) → cut_row strtol row ≡ row_of strtol row (dst, bits)
  unfolding cut_row
  cut_row_lem strtol row =
      ap₂ (λ d b. row_of strtol row (d, b))
        (c_string-read 100 (cut_at buf (length dst)) 0 dst line.0 cut_address (ground arith)
          (omega (arith, line.2)))
        (c_string-read 100 (cut_at buf (length dst)) (length dst + 1) bits line.1 cut_number cut_end
          (omega (arith, line.2)))

  scan-slash :
      (strtol : Str → ℤ) (n : ℕ) (row : RouteRow)
      → scan strtol (suc n) (length dst) buf row
        ≡ scan strtol n (length dst + 1) (cut_at buf (length dst)) (cut_row strtol row)
  unfolding scan cut_row
  scan-slash strtol n row = ground (arith, l.slash)

  -- The loop over the buffer reads the line.
  scan-Loaded :
      (strtol : Str → ℤ) (row : RouteRow)
      → IsClean old 0 100
      → scan strtol 100 0 buf row ≡ (row_of strtol row (dst, bits), cut_at buf (length dst))
  scan-Loaded strtol row c =
      scan-plain strtol 100 (100 - length dst) 0 buf row dst line.0 l.address
        (omega (arith, line.2))
      ∙ ap₂ (λ n i. scan strtol n i buf row) left (zero-add (length dst))
      ∙ scan-slash strtol (99 - length dst) row
      ∙ ap (scan strtol (99 - length dst) (length dst + 1) (cut_at buf (length dst)))
          (cut_row_lem strtol row)
      ∙ scan-IsClean strtol (99 - length dst) (length dst + 1) (cut_at buf (length dst))
          (row_of strtol row (dst, bits))
          (λ k lo hi. cut-IsClean c k (omega arith) (omega (arith, hi, line.2)))
    where
      left : 100 - length dst ≡ suc (99 - length dst)
      left = omega (arith, line.2)

getline-line :
    (dst bits : Str) (buf : ℕ → ℕ)
    → IsLine (dst, bits)
    → getline (line_of (dst, bits)) buf ≡ some (copy buf 0 (line_of (dst, bits) ++ (0 ∷ [])))
unfolding getline
getline-line dst bits buf h = ground (arith, h.2, length-append dst (b'/' ∷ bits))

load_rows-cons :
    (strtol : Str → ℤ) (line : Str) (lines : List Str) (buf loaded : ℕ → ℕ) (row : RouteRow)
    (scanned : RouteRow × (ℕ → ℕ))
    → getline line buf ≡ some loaded
    → scan strtol 100 0 loaded row ≡ scanned
    → load_rows strtol (line ∷ lines) buf row
      ≡ scanned.0 ∷ load_rows strtol lines scanned.1 scanned.0
unfolding load_rows
load_rows-cons strtol line lines buf loaded row scanned e f =
    opened (getline line buf) e ∙ ap (λ s. s.0 ∷ load_rows strtol lines s.1 s.0) f
  where
    after : Option (ℕ → ℕ) → List RouteRow
    after none = []
    after (some b) = let s = scan strtol 100 0 b row in s.0 ∷ load_rows strtol lines s.1 s.0

    opened : (o : Option (ℕ → ℕ)) → o ≡ some loaded → after o ≡ after (some loaded)
    opened o q = ap after q

-- A file of lines `address/bits`, each within the buffer, gives for each line the row with that
-- address and number of bits, if the buffer holds no `/` to begin with.
pub load_rows_lem :
    (strtol : Str → ℤ) (lines : List (Str × Str)) (buf : ℕ → ℕ) (row : RouteRow)
    → All IsLine lines
    → IsClean buf 0 100
    → load_rows strtol (map line_of lines) buf row ≡ map (row_of strtol row) lines
unfolding load_rows
load_rows_lem strtol [] buf row h c = refl
load_rows_lem strtol ((dst, bits) ∷ lines) buf row h c =
    let buf' = copy buf 0 (line_of (dst, bits) ++ (0 ∷ [])) in
    let l = copy-Loaded buf dst bits in
    let later =
      load_rows_lem strtol lines (cut_at buf' (length dst)) (row_of strtol row (dst, bits)) h.1
        (cut-IsClean buf' buf dst bits h.0 l c) in
    load_rows-cons strtol (line_of (dst, bits)) (map line_of lines) buf buf' row
      (row_of strtol row (dst, bits), cut_at buf' (length dst)) (getline-line dst bits buf h.0)
      (scan-Loaded buf' buf dst bits h.0 l strtol row c)
    ∙ ap (◌∷◌ (row_of strtol row (dst, bits))) later
