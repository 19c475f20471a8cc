-- ===== src/Tunnel/Addresses/Tests.antt =====
-- A function that turns the four bytes of a number round.
use sharpvpn.Base.{ℕ, ◌/◌, ◌%◌, ◌^◌, ◌<◌, ◌≡◌, refl, ◌∙◌, arith}
use sharpvpn.Tunnel.Addresses.{LittleEndian, host_order, IsByte}

abbrev pub swap : ℕ → ℕ
swap x = host_order (x % 256) (x / 2 ^ 8 % 256) (x / 2 ^ 16 % 256) (x / 2 ^ 24 % 256)

swap_lem :
    (a b c d : ℕ)
    → IsByte a
    → IsByte b
    → IsByte c
    → IsByte d
    → swap (host_order a b c d) ≡ host_order d c b a
swap_lem a b c d ha hb hc hd =
    ap₄ (omega (arith, hd)) (omega (arith, hc, hd)) (omega (arith, hb, hc, hd))
      (omega (arith, ha, hb, hc, hd))
  where
    ap₄ :
        {d' c' b' a' : ℕ}
        → host_order a b c d % 256 ≡ d'
        → host_order a b c d / 2 ^ 8 % 256 ≡ c'
        → host_order a b c d / 2 ^ 16 % 256 ≡ b'
        → host_order a b c d / 2 ^ 24 % 256 ≡ a'
        → swap (host_order a b c d) ≡ host_order d' c' b' a'
    ap₄ p q r s = rw p (rw q (rw r (rw s refl)))

-- Two calls of the function turn the bytes back.
swap-swap : (x : ℕ) → x < 2 ^ 32 → swap (swap x) ≡ x
swap-swap x h =
    swap_lem (x % 256) (x / 2 ^ 8 % 256) (x / 2 ^ 16 % 256) (x / 2 ^ 24 % 256) (omega arith)
      (omega arith) (omega arith) (omega arith)
    ∙ omega (arith, h)

pub swap-LittleEndian : LittleEndian swap swap
swap-LittleEndian = record {
  htonl_bytes = swap_lem;
  ntohl_bytes = swap_lem;
  ntohl-htonl = swap-swap;
}
