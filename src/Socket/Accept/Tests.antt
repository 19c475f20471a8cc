-- ===== src/Socket/Accept/Tests.antt =====
-- A connection between a client and a server.
use sharpvpn.Base.{ℕ, ◌+◌, ◌%◌, ◌<◌, ◌≡◌, refl, Bool, ltb, min, some, arith}
use sharpvpn.Socket.Control.{connect}
use sharpvpn.Socket.Accept.{
  Listener, new_listener, listen_addr, connection_create, Accepted, accept_connection,
}
use sharpvpn.Socket.Accept.Ports.{First, late, connect-accept_connection}

-- The first two ports are in use.
abbrev binds : ℕ → Bool
binds p = ltb 50021 p

abbrev listener : Listener
listener = listen_addr (new_listener 100 30)

connect-accept_connection_example :
    (a : Accepted) × (l' : Listener) × (m : ℕ) × (accept_connection binds 100
        (some (connection_create 50))
        listener
      ≡ some (some a, l'))
    × First binds 0 m
    × (a.port ≡ (0 + m) % 100 + 50020)
    × (a.send_speed ≡ min 50 30)
    × (connect (late 1 a.reply) 40 ≡ some (min (min 50 30) 40, a.port))
    × (l'.free_port_now < 100)
connect-accept_connection_example =
    connect-accept_connection binds listener 50 40 7 1 refl (omega arith) (omega arith) refl
      (omega arith)
