-- ===== src/Crypto/Laws.antt =====
-- Encryption round trip and size.
use sharpvpn.Base.{
  ℕ, suc, zero, ◌+◌, ◌≡◌, refl, ap, ap₂, ◌∙◌, List, [], ◌∷◌, ◌++◌, some, length, take, drop, arith,
  length-append,
}
use sharpvpn.Crypto.{Secretbox, SharpCrypto, encrypt, decrypt, noncebytes, overhead}

take-append_of : (n : ℕ) (xs ys : List ℕ) → length xs ≡ n → take n (xs ++ ys) ≡ xs
take-append_of zero [] ys h = refl
take-append_of zero (x ∷ xs) ys h = absurd (omega arith)
take-append_of (suc n) [] ys h = absurd (omega arith)
take-append_of (suc n) (x ∷ xs) ys h = ap (◌∷◌ x) (take-append_of n xs ys (omega arith))

drop-append_of : (n : ℕ) (xs ys : List ℕ) → length xs ≡ n → drop n (xs ++ ys) ≡ ys
drop-append_of zero [] ys h = refl
drop-append_of zero (x ∷ xs) ys h = absurd (omega arith)
drop-append_of (suc n) [] ys h = absurd (omega arith)
drop-append_of (suc n) (x ∷ xs) ys h = drop-append_of n xs ys (omega arith)

module _ (box : Secretbox) where
  -- What one end encrypts, an end with the same key decrypts, whatever the nonce; and the
  -- ciphertext is longer by the overhead that the packages leave room for.
  pub decrypt-encrypt :
      (c : SharpCrypto) (nonce message : List ℕ)
      → length nonce ≡ noncebytes
      → (decrypt box c (encrypt box c nonce message) ≡ some message)
        × (length (encrypt box c nonce message) ≡ length message + overhead)
  unfolding encrypt decrypt
  decrypt-encrypt c nonce message h = (
    ap₂ (box.open_box c.key_buf)
          (take-append_of noncebytes nonce (box.seal c.key_buf nonce message) h)
          (drop-append_of noncebytes nonce (box.seal c.key_buf nonce message) h)
        ∙ box.open_box-seal c.key_buf nonce message,
    omega (
      arith,
      length-append nonce (box.seal c.key_buf nonce message),
      box.length-seal c.key_buf nonce message,
    ),
  )
