-- ===== src/RouteTable/Lines/Buffer.antt =====
-- How the loop over the buffer goes on where there is no `/`, and the strings that it takes out.
use sharpvpn.Base.{
  Str, ℕ, zero, suc, ◌+◌, ◌≤◌, ◌<◌, ◌≡◌, refl, ap, ap₂, ◌∙◌, [], ◌∷◌, ℤ, arith, length, read,
  cons_split, sym,
}
use native.Mathlib.Decide.{dec_lt}
use sharpvpn.RouteTable.{RouteRow}
use sharpvpn.RouteTable.Lines.{c_string, scan, IsClean, IsPlain}

-- A buffer without a `/` changes nothing.
pub scan-IsClean :
    (strtol : Str → ℤ) (count i : ℕ) (buf : ℕ → ℕ) (row : RouteRow)
    → IsClean buf i count
    → scan strtol count i buf row ≡ (row, buf)
unfolding scan
scan-IsClean strtol zero i buf row h = refl
scan-IsClean strtol (suc count) i buf row h = ground (
  arith,
  h i (omega arith) (omega arith),
  scan-IsClean strtol count (i + 1) buf row
      (λ k lo hi. h k (omega (arith, lo)) (omega (arith, hi))),
)

-- The bytes that were read from a buffer are clean if they are plain.
pub read-IsClean :
    (buf : ℕ → ℕ) (i : ℕ) (s : Str)
    → IsPlain s
    → read buf i (length s) ≡ s
    → IsClean buf i (length s)
read-IsClean buf i [] p e k lo hi = absurd (omega arith)
read-IsClean buf i (c ∷ s) p e k lo hi =
    let parts = cons_split (buf i) c (read buf (i + 1) (length s)) s e in
    elim (dec_lt i k) [
      | yes q ↦ read-IsClean buf (i + 1) s p.1 parts.1 k (omega (arith, q)) (omega (arith, hi))
      | no q ↦ λ slash. p.0.0 (sym parts.0 ∙ ap buf (same i k lo q) ∙ slash)
    ]
  where
    same : (i k : ℕ) → i ≤ k → ¬ (i < k) → i ≡ k
    same i k h n = omega (arith, h, n)

-- A string that was read, and ends there.
pub c_string-read :
    (fuel : ℕ) (buf : ℕ → ℕ) (i : ℕ) (s : Str)
    → IsPlain s
    → read buf i (length s) ≡ s
    → buf (i + length s) ≡ 0
    → length s < fuel
    → c_string fuel buf i ≡ s
unfolding c_string
c_string-read zero buf i s p e z h = absurd (omega (arith, h))
c_string-read (suc fuel) buf i [] p e z h = ground (arith, z, ap buf (same i))
  where
    same : (i : ℕ) → i + 0 ≡ i
    same i = omega arith
c_string-read (suc fuel) buf i (c ∷ s) p e z h =
    let parts = cons_split (buf i) c (read buf (i + 1) (length s)) s e in
    ground (
      arith,
      parts.0,
      p.0.1,
      c_string-read fuel buf (i + 1) s p.1 parts.1 (ap buf (shift i (length s)) ∙ z)
          (omega (arith, h)),
    )
  where
    shift : (i n : ℕ) → i + 1 + n ≡ i + suc n
    shift i n = omega arith

-- The loop passes over plain characters.
pub scan-plain :
    (strtol : Str → ℤ) (count n i : ℕ) (buf : ℕ → ℕ) (row : RouteRow) (s : Str)
    → IsPlain s
    → read buf i (length s) ≡ s
    → count ≡ length s + n
    → scan strtol count i buf row ≡ scan strtol n (i + length s) buf row
unfolding scan
scan-plain strtol count n i buf row [] p e h =
    ap₂ (λ c j. scan strtol c j buf row) (omega (arith, h)) (omega arith)
scan-plain strtol zero n i buf row (c ∷ s) p e h = absurd (omega (arith, h))
scan-plain strtol (suc count) n i buf row (c ∷ s) p e h =
    let parts = cons_split (buf i) c (read buf (i + 1) (length s)) s e in
    let later = scan-plain strtol count n (i + 1) buf row s p.1 parts.1 (omega (arith, h)) in
    ground (arith, parts.0, p.0.0, later ∙ ap (λ j. scan strtol n j buf row) (shift i (length s)))
  where
    shift : (i n : ℕ) → i + 1 + n ≡ i + suc n
    shift i n = omega arith
