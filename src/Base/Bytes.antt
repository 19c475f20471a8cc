-- ===== src/Base/Bytes.antt =====
-- Buffers of bytes as functions of the index, `memcpy`, and 16-bit numbers in little-endian order.
use Prim.Native.Nat.{ℕ, zero, suc, ◌+◌, ◌*◌, ◌/◌, ◌%◌, ◌≤◌, ◌<◌}
use mathlib.Core.Path.{◌≡◌, refl, sym, ap, ap₂, ◌∙◌}
use mathlib.Core.List.{List, [], ◌∷◌, ◌++◌}
use native.Mathlib.Omega.{arith}
use native.Mathlib.Nat.{zero-add, add-zero}
use sharpvpn.Base.Lists.{length, length-append}
use sharpvpn.Base.Arrays.{update}

-- The `n` bytes from index `i` on.
abbrev pub read : (ℕ → ℕ) → ℕ → ℕ → List ℕ
read b i zero = []
read b i (suc n) = b i ∷ read b (i + 1) n

-- `memcpy(b + i, bytes, length bytes)`.
abbrev pub copy : (ℕ → ℕ) → ℕ → List ℕ → ℕ → ℕ
copy b i [] = b
copy b i (x ∷ xs) = copy (update b i x) (i + 1) xs

-- The two bytes of a `uint16_t`, and a read and a write of one.
abbrev pub le16 : ℕ → List ℕ
le16 v = v % 256 ∷ (v / 256 % 256) ∷ []

abbrev pub write16 : (ℕ → ℕ) → ℕ → ℕ → ℕ → ℕ
write16 b i v = copy b i (le16 v)

abbrev pub read16 : (ℕ → ℕ) → ℕ → ℕ
read16 b i = b i + 256 * b (i + 1)

pub length-read : (b : ℕ → ℕ) (i n : ℕ) → length (read b i n) ≡ n
length-read b i zero = refl
length-read b i (suc n) = ap suc (length-read b (i + 1) n)

pub read-append : (b : ℕ → ℕ) (i n m : ℕ) → read b i (n + m) ≡ read b i n ++ read b (i + n) m
read-append b i zero m = rw (zero-add, add-zero)
read-append b i (suc n) m =
    ap {B = List ℕ} (read b i) split_suc
    ∙ ap (◌∷◌ (b i)) (read-append b (i + 1) n m ∙ ap (λ k. read b (i + 1) n ++ read b k m) shift)
  where
    split_suc : suc n + m ≡ suc (n + m)
    split_suc = omega arith

    shift : i + 1 + n ≡ i + suc n
    shift = omega arith

-- A copy leaves the bytes before it.
pub copy_before : (b : ℕ → ℕ) (i k : ℕ) (xs : List ℕ) → k < i → copy b i xs k ≡ b k
copy_before b i k [] h = refl
copy_before b i k (x ∷ xs) h = copy_before (update b i x) (i + 1) k xs (omega arith) ∙ ground arith

pub read-copy_before :
    (b : ℕ → ℕ) (i n j : ℕ) (xs : List ℕ) → i + n ≤ j → read (copy b j xs) i n ≡ read b i n
read-copy_before b i zero j xs h = refl
read-copy_before b i (suc n) j xs h =
    ap₂ ◌∷◌ (copy_before b j i xs (omega arith)) (read-copy_before b (i + 1) n j xs (omega arith))

-- What was copied is read back.
pub read-copy_self : (b : ℕ → ℕ) (i : ℕ) (xs : List ℕ) → read (copy b i xs) i (length xs) ≡ xs
read-copy_self b i [] = refl
read-copy_self b i (x ∷ xs) =
    ap₂ ◌∷◌ (copy_before (update b i x) (i + 1) i xs (omega arith) ∙ ground arith)
      (read-copy_self (update b i x) (i + 1) xs)

-- A copy that goes on where `pre` ends appends to it.
pub read-copy_append :
    (b : ℕ → ℕ) (i : ℕ) (pre xs : List ℕ)
    → read b 0 i ≡ pre
    → read (copy b i xs) 0 (i + length xs) ≡ pre ++ xs
read-copy_append b i pre xs h =
    read-append (copy b i xs) 0 i (length xs)
    ∙ ap₂ ◌++◌ (read-copy_before b 0 i i xs (omega arith) ∙ h) (rw zero-add (read-copy_self b i xs))

-- A copy leaves the bytes behind it.
pub copy_after : (b : ℕ → ℕ) (i k : ℕ) (xs : List ℕ) → i + length xs ≤ k → copy b i xs k ≡ b k
copy_after b i k [] h = refl
copy_after b i k (x ∷ xs) h =
    copy_after (update b i x) (i + 1) k xs (omega arith) ∙ ground (arith, h)

pub read-copy_after :
    (b : ℕ → ℕ) (i n j : ℕ) (xs : List ℕ) → j + length xs ≤ i → read (copy b j xs) i n ≡ read b i n
read-copy_after b i zero j xs h = refl
read-copy_after b i (suc n) j xs h =
    ap₂ ◌∷◌ (copy_after b j i xs h) (read-copy_after b (i + 1) n j xs (omega arith))

-- Lists that are equal are so in parts.
pub cons_split :
    (a b : ℕ) (xs ys : List ℕ) → ◌≡◌ {A = List ℕ} (a ∷ xs) (b ∷ ys) → (a ≡ b) × (xs ≡ ys)
cons_split a b xs ys e = ground (arith, e)

pub append_split :
    (xs ys us vs : List ℕ) → length xs ≡ length ys → xs ++ us ≡ ys ++ vs → (xs ≡ ys) × (us ≡ vs)
append_split [] [] us vs h e = (refl, e)
append_split [] (y ∷ ys) us vs h e = absurd (omega arith)
append_split (x ∷ xs) [] us vs h e = absurd (omega arith)
append_split (x ∷ xs) (y ∷ ys) us vs h e =
    let parts = cons_split x y (xs ++ us) (ys ++ vs) e in
    let rest = append_split xs ys us vs (omega arith) parts.1 in (ap₂ ◌∷◌ parts.0 rest.0, rest.1)

-- Bytes that were read are so in parts.
pub read-append_split :
    (b : ℕ → ℕ) (i : ℕ) (s rest : List ℕ)
    → read b i (length (s ++ rest)) ≡ s ++ rest
    → (read b i (length s) ≡ s) × (read b (i + length s) (length rest) ≡ rest)
read-append_split b i s rest e =
    append_split (read b i (length s)) s (read b (i + length s) (length rest)) rest
      (length-read b i (length s))
      (sym (read-append b i (length s) (length rest))
        ∙ ap (read b i) (sym (length-append s rest))
        ∙ e)
