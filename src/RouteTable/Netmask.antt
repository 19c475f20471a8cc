-- ===== src/RouteTable/Netmask.antt =====
-- The loop that makes a netmask of a number of bits, in src/RouteTable.cpp.
use native.Mathlib.Nat.{
  one-le-pow, two-pow-succ, mul-add, add-mul, div-eq_of_eq-mul_left, zero-add, add-zero,
}
use sharpvpn.Base.{
  sym, ap, ◌*◌, ◌∙◌, ℕ, zero, suc, ◌+◌, ◌-◌, ◌/◌, ◌%◌, ◌^◌, ◌≤◌, ◌<◌, ◌≡◌, ◌==◌, ltb, if◌then◌else◌,
  Option, none, some, arith,
}

-- `v |= 1 << k` on 32 bits.
abbrev pub or_bit : ℕ → ℕ → ℕ
or_bit v k = if v / 2 ^ k % 2 == 1 then v else v + 2 ^ k

-- `count` rounds of the loop from `i` on; `none` is a shift by a negative number.
unfoldable pub mask_bits : ℕ → ℕ → ℕ → Option ℕ
mask_bits zero i v = some v
mask_bits (suc count) i v =
    let rest = mask_bits count (i + 1) (or_bit v (31 - i)) in if ltb 31 i then none else rest

unfoldable pub sharp_mask : ℕ → Option ℕ
sharp_mask n = mask_bits n 0 0

-- `i` bits that are set, and `k` bits below them that are not.
abbrev pub high_bits : ℕ → ℕ → ℕ
high_bits i k = (2 ^ i - 1) * 2 ^ k

one-le-two-pow : (k : ℕ) → 0 < 2 ^ k
one-le-two-pow k = one-le-pow k 2 (omega arith)

-- The next bit below is not set yet, and setting it moves the border.
or_bit-high_bits : (i k : ℕ) → or_bit (high_bits i (k + 1)) k ≡ high_bits (i + 1) k
or_bit-high_bits i k = go (2 ^ i - 1) (2 ^ k) (one-le-two-pow k) double grows
  where
    double : 2 ^ (k + 1) ≡ 2 ^ k + 2 ^ k
    double = ap (λ n. 2 ^ n) next ∙ two-pow-succ k
      where
        next : k + 1 ≡ suc k
        next = omega arith

    grows : 2 ^ (i + 1) - 1 ≡ (2 ^ i - 1) + (2 ^ i - 1) + 1
    grows = omega (arith, ap (λ n. 2 ^ n) next ∙ two-pow-succ i, one-le-two-pow i)
      where
        next : i + 1 ≡ suc i
        next = omega arith

    go :
        (a b : ℕ)
        → 0 < b
        → 2 ^ (k + 1) ≡ b + b
        → 2 ^ (i + 1) - 1 ≡ a + a + 1
        → (if a * 2 ^ (k + 1) / b % 2 == 1 then a * 2 ^ (k + 1) else a * 2 ^ (k + 1) + b)
          ≡ (2 ^ (i + 1) - 1) * b
    go a b pos d g =
        let whole = mul-add a b b in
        let halves = add-mul a a b in
        let sum = add-mul (a + a) 1 b in
        let quotient =
          div-eq_of_eq-mul_left {n = b} {m = a * (b + b)} {k = a + a} pos (whole ∙ sym halves) in
        rw d (rw g (ground (arith, quotient, whole, halves, sum)))

mask_bits_lem :
    (count i : ℕ)
    → i + count ≤ 32
    → mask_bits count i (high_bits i (32 - i)) ≡ some (high_bits (i + count) (32 - (i + count)))
unfolding mask_bits
mask_bits_lem zero i h = ap (λ j. some (high_bits j (32 - j))) (sym (add-zero i))
mask_bits_lem (suc count) i h =
    let step : or_bit (high_bits i (32 - i)) (31 - i) ≡ high_bits (i + 1) (32 - (i + 1)) =
      ap (λ k. or_bit (high_bits i k) (31 - i)) (above i (omega (arith, h)))
      ∙ or_bit-high_bits i (31 - i)
      ∙ ap (high_bits (i + 1)) (below i) in
    rw (sym (shift i count)) (
      ground (
        arith,
        h,
        ap (mask_bits count (i + 1)) step,
        mask_bits_lem count (i + 1) (omega (arith, h)),
      ))
  where
    above : (i : ℕ) → i < 32 → 32 - i ≡ 31 - i + 1
    above i h = omega (arith, h)

    below : (i : ℕ) → 31 - i ≡ 32 - (i + 1)
    below i = omega arith

    shift : (i count : ℕ) → i + 1 + count ≡ i + suc count
    shift i count = omega arith

-- For up to 32 bits the loop is defined, and gives the address whose upper `n` bits are set and
-- whose others are not.
pub sharp_mask_lem : (n : ℕ) → n ≤ 32 → sharp_mask n ≡ some (high_bits n (32 - n))
unfolding sharp_mask
sharp_mask_lem n h =
    mask_bits_lem n 0 (omega (arith, h)) ∙ ap (λ j. some (high_bits j (32 - j))) (zero-add n)

mask_bits_undefined : (count i v : ℕ) → i ≤ 32 → 32 < i + count → mask_bits count i v ≡ none
unfolding mask_bits
mask_bits_undefined zero i v h k = absurd (omega arith)
mask_bits_undefined (suc count) i v h k =
    ground (arith, h, k, mask_bits_undefined count (i + 1) (or_bit v (31 - i)))

-- From 33 bits on it runs into the undefined shift.
pub sharp_mask_undefined : (n : ℕ) → 32 < n → sharp_mask n ≡ none
unfolding sharp_mask
sharp_mask_undefined n h = mask_bits_undefined n 0 0 (omega arith) (omega (arith, h))
