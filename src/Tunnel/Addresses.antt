-- ===== src/Tunnel/Addresses.antt =====
-- Addresses in host and in network order on a machine that keeps the lowest byte first, for the
-- gateways that src/SharpTunnel.cpp computes.
pub mod Tests
use sharpvpn.Base.{ℕ, ◌+◌, ◌*◌, ◌%◌, ◌^◌, ◌<◌, ◌≡◌, ap, ◌∙◌, arith}

-- The address a.b.c.d in host order.
abbrev pub host_order : ℕ → ℕ → ℕ → ℕ → ℕ
host_order a b c d = a * 2 ^ 24 + b * 2 ^ 16 + c * 2 ^ 8 + d

abbrev pub IsByte : ℕ → Type 0
IsByte x = x < 256

-- Both functions turn the bytes round.
pub record LittleEndian (htonl ntohl : ℕ → ℕ) : Type 0 where
  pub htonl_bytes :
      (a b c d : ℕ)
      → IsByte a
      → IsByte b
      → IsByte c
      → IsByte d
      → htonl (host_order a b c d) ≡ host_order d c b a
  pub ntohl_bytes :
      (a b c d : ℕ)
      → IsByte a
      → IsByte b
      → IsByte c
      → IsByte d
      → ntohl (host_order a b c d) ≡ host_order d c b a
  pub ntohl-htonl : (x : ℕ) → x < 2 ^ 32 → ntohl (htonl x) ≡ x

module _ (htonl ntohl : ℕ → ℕ) (e : LittleEndian htonl ntohl) where
  -- The first three bytes of a.b.c.d, plus one, are a.b.c.1.
  pub next_lem :
      (a b c d : ℕ)
      → IsByte a
      → IsByte b
      → IsByte c
      → IsByte d
      → htonl ((ntohl (htonl (host_order a b c d) % 2 ^ 24) + 1) % 2 ^ 32)
        ≡ htonl (host_order a b c 1)
  next_lem a b c d ha hb hc hd =
      ap (λ x. htonl ((ntohl (x % 2 ^ 24) + 1) % 2 ^ 32)) (e.htonl_bytes a b c d ha hb hc hd)
      ∙ ap (λ x. htonl ((ntohl x + 1) % 2 ^ 32)) (low d c b a ha hb hc)
      ∙ ap (λ x. htonl ((x + 1) % 2 ^ 32)) (e.ntohl_bytes 0 c b a (omega arith) hc hb ha)
      ∙ ap htonl (no_wrap a b c ha hb hc)
    where
      low :
          (d c b a : ℕ)
          → IsByte a
          → IsByte b
          → IsByte c
          → host_order d c b a % 2 ^ 24 ≡ host_order 0 c b a
      low d c b a ha hb hc = omega (arith, ha, hb, hc)

      no_wrap :
          (a b c : ℕ)
          → IsByte a
          → IsByte b
          → IsByte c
          → (host_order a b c 0 + 1) % 2 ^ 32 ≡ host_order a b c 1
      no_wrap a b c ha hb hc = omega (arith, ha, hb, hc)
