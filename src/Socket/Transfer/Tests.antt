-- ===== src/Socket/Transfer/Tests.antt =====
-- Two segments that are packed, sent twice in the wrong order, and read.
use sharpvpn.Base.{ℕ, List, [], ◌∷◌}
use sharpvpn.Socket.State.{Memory}
use sharpvpn.Socket.Transfer.Arrival.{Sending}

abbrev cleared : Memory
cleared = record { ack_ids = λ _. 0; acked_ids = λ _. 0; segment_buf = λ _. 0 }

abbrev segs : List (List ℕ)
segs = (1 ∷ 2 ∷ 3 ∷ []) ∷ (4 ∷ 5 ∷ []) ∷ (6 ∷ []) ∷ []

-- The two packages that they take.
abbrev packed : List (List ℕ)
packed = (3 ∷ 0 ∷ 1 ∷ 2 ∷ 3 ∷ 2 ∷ 0 ∷ 4 ∷ 5 ∷ 0 ∷ 0 ∷ []) ∷ (1 ∷ 0 ∷ 6 ∷ 0 ∷ 0 ∷ []) ∷ []

abbrev twice : List Sending
twice = record { id = 2; una = 0 } ∷ record { id = 1; una = 0 } ∷ record { id = 2; una = 1 } ∷ []
