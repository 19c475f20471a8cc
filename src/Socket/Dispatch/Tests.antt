-- ===== src/Socket/Dispatch/Tests.antt =====
-- A run of the receiver's loop.
use sharpvpn.Base.{ℕ, ◌≡◌, refl, List, [], ◌∷◌, true, false}
use sharpvpn.Crypto.Tests.{test_crypto}
use sharpvpn.Package.{DataPackage}
use sharpvpn.Socket.State.{Memory, init}
use sharpvpn.Socket.Receiver.{data_arrives, run}
use sharpvpn.Socket.Dispatch.{Endpoint, Input, ping, data_package, close, stop_worker, receive_all}
use sharpvpn.Socket.Dispatch.Histories.{receive_all-run}

abbrev cleared : Memory
cleared = record { ack_ids = λ _. 0; acked_ids = λ _. 0; segment_buf = λ _. 0 }

abbrev endpoint : Endpoint
endpoint = record {
  socket = init cleared test_crypto 8 true;
  control = record { rto = 30; ping_send_time = 0; package_count = 0 };
  sent = [];
  closes = 0;
}

abbrev first_package : DataPackage
first_package = record { package_id = 1; una = 0; bytes = 1 ∷ [] }

-- A package between a ping and the end of the connection, and one that comes too late.
abbrev inputs : List (ℕ × Input)
inputs =
    (5, ping (record { ping_back = false }))
    ∷ (6, data_package first_package)
    ∷ (7, close)
    ∷ (8, data_package first_package)
    ∷ []

receive_all-run_example :
    ((receive_all true inputs endpoint).socket
      ≡ stop_worker (run endpoint.socket (data_arrives first_package ∷ [])))
    × ((receive_all true inputs endpoint).closes ≡ 1)
unfolding init
receive_all-run_example = receive_all-run true inputs endpoint refl
