-- ===== src/Socket/Transfer.antt =====
-- A transfer over the threads of src/rudp/ReliableSocket.cpp: what the segment thread of one end
-- packs, the network carries in any order and as often as it likes, and `recv_package` of the other
-- end returns.
pub mod Arrival
mod Tests
use sharpvpn.Base.{ℕ, zero, suc, ◌≡◌, List, [], ◌∷◌, map, length, Option, none, Bool, length-append}
use sharpvpn.Crypto.{Secretbox, SharpCrypto, encrypt, noncebytes}
use sharpvpn.NetStruct.PackageMap
use sharpvpn.NetStruct.PackageMap.{PackageMap}
use sharpvpn.Socket.Transfer.Arrival.{Sending, arrive, Keeps}
use sharpvpn.Socket.State.{Socket, Memory, init}
use sharpvpn.NetStruct.SegmentParser
use sharpvpn.NetStruct.SegmentParser.Drain.{encode}

-- The message of the package `id`; ids begin at 1.
abbrev pub message : List (List ℕ) → ℕ → List ℕ
message [] id = []
message (m ∷ messages) zero = []
message (m ∷ messages) (suc zero) = m
message (m ∷ messages) (suc (suc id)) = message messages (suc id)

module _ (box : Secretbox) (nonce : ℕ → List ℕ) (c : SharpCrypto) where
  -- The bytes of the package `id`, encrypted under a nonce of its own.
  abbrev pub content : List (List ℕ) → ℕ → List ℕ
  content messages id = encrypt box c (nonce id) (message messages id)

module _ (box : Secretbox) (nonce : ℕ → List ℕ) (nonces : (i : ℕ) → length (nonce i) ≡ noncebytes)
    (memory : Memory) (crypto : SharpCrypto) (capacity : ℕ) (running : Bool)
    (gs : List (List (List ℕ))) (sendings : List Sending) where
  abbrev sent : ℕ → List ℕ
  sent = content box nonce crypto (map encode gs)

  abbrev receiver : Socket
  receiver = arrive sent (init memory crypto capacity running) sendings
