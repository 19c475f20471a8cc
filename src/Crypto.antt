-- ===== src/Crypto.antt =====
-- src/SharpCrypto.h and src/SharpCrypto.cpp. The secret-box functions are libsodium's: `Secretbox`
-- is what the code relies on of them. Its sizes are those of `crypto_secretbox`.
pub mod Laws
pub mod Tests
use sharpvpn.Base.{
  ℕ, zero, suc, ◌+◌, ◌-◌, ◌≡◌, List, [], ◌∷◌, ◌++◌, Option, none, some, ltb, if◌then◌else◌, length,
  take, drop,
}

-- `crypto_secretbox_KEYBYTES`, `_NONCEBYTES` and `_MACBYTES`.
abbrev pub keybytes : ℕ
keybytes = 32

abbrev pub noncebytes : ℕ
noncebytes = 24

abbrev pub macbytes : ℕ
macbytes = 16

-- `SHARPVPN_CRYPTO_OVERHEAD`
abbrev pub overhead : ℕ
overhead = noncebytes + macbytes

-- `seal` is `crypto_secretbox_easy` and `open_box` is `crypto_secretbox_open_easy`, over key, nonce
-- and bytes: opening what was sealed under the same key and nonce gives the message, and a box is
-- as much longer as the authenticator.
pub record Secretbox : Type 0 where
  pub seal : List ℕ → List ℕ → List ℕ → List ℕ
  pub open_box : List ℕ → List ℕ → List ℕ → Option (List ℕ)
  pub open_box-seal : (k n m : List ℕ) → open_box k n (seal k n m) ≡ some m
  pub length-seal : (k n m : List ℕ) → length (seal k n m) ≡ length m + 16

pub record SharpCrypto : Type 0 where
  pub key : List ℕ
  pub key_buf : List ℕ

abbrev zeros : ℕ → List ℕ
zeros zero = []
zeros (suc n) = 0 ∷ zeros n

-- A longer key is cut, a shorter one is padded with zeros.
unfoldable pub init : List ℕ → SharpCrypto
init encryption_key = record { key = cut; key_buf = cut ++ zeros (keybytes - length cut) }
  where
    cut : List ℕ
    cut =
        if ltb keybytes (length encryption_key)
        then take keybytes encryption_key
        else encryption_key

module _ (box : Secretbox) where
  -- The `ciphertext` that `encrypt` writes; `nonce` is what `randombytes_buf` gave.
  unfoldable pub encrypt : SharpCrypto → List ℕ → List ℕ → List ℕ
  encrypt c nonce message = nonce ++ box.seal c.key_buf nonce message

  -- The `message` that `decrypt` writes; `none` where it returns 0 for a box that does not open. It
  -- is that of the source for at least as many bytes as a nonce has: below, the length wraps there.
  unfoldable pub decrypt : SharpCrypto → List ℕ → Option (List ℕ)
  decrypt c ciphertext =
      box.open_box c.key_buf (take noncebytes ciphertext) (drop noncebytes ciphertext)

  -- Messages encrypted one after the other, each under the next nonce.
  abbrev pub encrypt_all : SharpCrypto → (ℕ → List ℕ) → ℕ → List (List ℕ) → List (List ℕ)
  encrypt_all c nonce i [] = []
  encrypt_all c nonce i (m ∷ messages) =
      encrypt c (nonce i) m ∷ encrypt_all c nonce (i + 1) messages
