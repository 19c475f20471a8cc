-- ===== src/Crypto/Tests.antt =====
-- A box that works, to run the code that encrypts with, and the round trip at a concrete input.
use sharpvpn.Base.{ℕ, ◌≡◌, refl, List, [], ◌∷◌, ◌++◌, some, arith, length, drop, read, length-read}
use sharpvpn.Crypto.{Secretbox, SharpCrypto, init}

-- The authenticator is sixteen zeros, whatever the message.
abbrev tag : List ℕ
tag = read (λ _. 0) 0 16

abbrev pub test_box : Secretbox
test_box = record {
  seal = λ k n m. tag ++ m;
  open_box = λ k n c. some (drop 16 c);
  open_box-seal = λ k n m. refl;
  length-seal = λ k n m. omega arith;
}

abbrev pub test_crypto : SharpCrypto
test_crypto = record { key = 1 ∷ 2 ∷ []; key_buf = 1 ∷ 2 ∷ read (λ _. 0) 0 30 }

abbrev pub test_nonce : ℕ → List ℕ
test_nonce i = read (λ _. i) 0 24

pub length-test_nonce : (i : ℕ) → length (test_nonce i) ≡ 24
length-test_nonce i = length-read (λ _. i) 0 24

init_pads : init (1 ∷ 2 ∷ []) ≡ test_crypto
unfolding init
init_pads = refl
