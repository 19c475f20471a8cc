-- ===== src/Socket/Rate/Tests.antt =====
-- A run of the sender's pace.
use sharpvpn.Base.{ℕ, ◌+◌, ◌*◌, ◌≤◌, List, [], ◌∷◌, arith}
use sharpvpn.Socket.Rate.{Round, new_sleeper, send_all, bytes, sent, send_all_lem}

-- Two rounds that count 1500 bytes, the first with a copy for the fast start, at the 10240 bytes in 819 microseconds of a speed of 100.
abbrev two_rounds : List Round
two_rounds =
    record { len = 1500; fast = 1500; took = 10; over = 1 }
    ∷ record { len = 1500; fast = 0; took = 10; over = 1 }
    ∷ []

send_all_lem_example :
    (n : ℕ) × (5 + n * 819 ≤ (send_all two_rounds (new_sleeper 10240 819 5, 5)).1)
    × (bytes two_rounds ≤ (n + 1) * (10240 + 1500))
    × (sent two_rounds ≤ (n + 1) * (10240 + 1500) + 1 * 1500)
send_all_lem_example =
    send_all_lem 1500 10240 819 5 two_rounds
      ((omega arith, omega arith), ((omega arith, omega arith), tt))
