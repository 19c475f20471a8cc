-- ===== src/Tunnel/Windows/Masks.antt =====
-- The bitwise `and` with a netmask, as src/SharpTunnel.cpp takes it on Windows.
use sharpvpn.Base.{
  ℕ, zero, suc, ◌+◌, ◌-◌, ◌*◌, ◌/◌, ◌%◌, ◌^◌, ◌≤◌, ◌<◌, ◌≡◌, refl, sym, ap, ◌∙◌, arith,
}
use native.Mathlib.Nat.{
  div-add-mod, mul-add-mod_self_left, mod-eq_of_lt, add-mul, two-pow-succ, one-le-pow,
}
use sharpvpn.Tunnel.Windows.{bit_and}

-- The lowest bit of a number and the others, below a border.
split_mod : (x p : ℕ) → 0 < p → x % (p + p) ≡ x % 2 + 2 * (x / 2 % p)
split_mod x p h =
    ap (λ y. y % (p + p)) whole
    ∙ mul-add-mod_self_left (p + p) (x / 2 / p) (2 * (x / 2 % p) + x % 2)
    ∙ mod-eq_of_lt small
    ∙ omega arith
  where
    low : x / 2 % p < p
    low = omega (arith, h)

    small : 2 * (x / 2 % p) + x % 2 < p + p
    small = omega (arith, low)

    whole : x ≡ (p + p) * (x / 2 / p) + (2 * (x / 2 % p) + x % 2)
    whole = omega (arith, div-add-mod (x / 2) p, add-mul p p (x / 2 / p))

bit_and_zero : (n x : ℕ) → bit_and n x 0 ≡ 0
bit_and_zero zero x = refl
bit_and_zero (suc n) x = ground (arith, bit_and_zero n (x / 2))

-- One round of the loop, where the other number is odd.
bit_and_odd : (n x m : ℕ) → bit_and (suc n) x (m + m + 1) ≡ x % 2 + 2 * bit_and n (x / 2) m
bit_and_odd n x m =
    let half : (m + m + 1) / 2 ≡ m = omega arith in
    let odd : (m + m + 1) % 2 ≡ 1 = omega arith in rw half (rw odd (ground arith))

-- With a number whose low bits are set, it takes the rest of the division.
pub bit_and_low : (n k x : ℕ) → k ≤ n → bit_and n x (2 ^ k - 1) ≡ x % 2 ^ k
bit_and_low n zero x h = bit_and_zero n x ∙ omega arith
bit_and_low zero (suc k) x h = absurd (omega (arith, h))
bit_and_low (suc n) (suc k) x h =
    let pos : 0 < 2 ^ k = one-le-pow k 2 (omega arith) in
    let double : 2 ^ suc k ≡ 2 ^ k + 2 ^ k = two-pow-succ k in
    let ones : 2 ^ suc k - 1 ≡ (2 ^ k - 1) + (2 ^ k - 1) + 1 = omega (arith, double, pos) in
    ap (bit_and (suc n) x) ones
    ∙ bit_and_odd n x (2 ^ k - 1)
    ∙ ap (λ y. x % 2 + 2 * y) (bit_and_low n k (x / 2) (omega (arith, h)))
    ∙ sym (split_mod x (2 ^ k) pos)
    ∙ ap (λ p. x % p) (sym double)
