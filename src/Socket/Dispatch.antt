-- ===== src/Socket/Dispatch.antt =====
-- The loop of `start_thread_receiver` of src/rudp/ReliableSocket.cpp around the cases of
-- Socket.Receiver, and the end of a connection: `close_addr` and `stop_all_thread`.
pub mod Histories
mod Tests
use sharpvpn.Base.{
  ℕ, ◌+◌, List, [], ◌∷◌, ◌++◌, Bool, true, false, Option, none, some, if◌then◌else◌,
}
use sharpvpn.Package.{DataPackage, AckPackage, PingPackage}
use sharpvpn.Socket.State.{Socket}
use sharpvpn.Socket.Receiver.{handle_data, handle_ack}
use sharpvpn.Socket.Control.{Control, handle_ping}

-- What the thread sends: answers to pings, the request to close, and the bytes that wake it up.
pub data Sent : Type 0 where
  ping_reply : PingPackage → Sent
  connection_close wake_up : Sent

-- The object with what it has sent, and how often its descriptor was closed.
pub record Endpoint : Type 0 where
  pub socket : Socket
  pub control : Control
  pub sent : List Sent
  pub closes : ℕ

-- What `select` and `recvfrom` bring: a byte on the local socket, nothing for 20 seconds, an error,
-- or a package.
pub data Input : Type 0 where
  exit_message timeout error : Input
  ping : PingPackage → Input
  data_package : DataPackage → Input
  ack : AckPackage → Input
  close unknown : Input

abbrev send : Sent → Endpoint → Endpoint
send m e = record e { sent = e.sent ++ (m ∷ []) }

abbrev pub stop_worker : Socket → Socket
stop_worker s = record s { worker_running = false }

-- The byte that wakes the receiver up is sent twice.
abbrev pub stop_all_thread : Endpoint → Endpoint
stop_all_thread e = send wake_up (send wake_up (record e { socket = stop_worker e.socket }))

abbrev close_socket : Endpoint → Endpoint
close_socket e = record e { closes = e.closes + 1 }

unfoldable pub close_addr : Endpoint → Endpoint
close_addr e =
    close_socket
      (stop_all_thread (record (send connection_close e) { socket = stop_worker e.socket }))

abbrev answer_ping : ℕ → PingPackage → Endpoint → Endpoint
answer_ping now p e =
    let (reply, c) = handle_ping now p e.control in
    elim reply [
      | none ↦ record e { control = c }
      | some q ↦ send (ping_reply q) (record e { control = c })
    ]

-- One round, at the time `now`: whether the loop goes on, and the object. Only a client watches the
-- local socket.
unfoldable pub receive : Bool → ℕ → Input → Endpoint → Bool × Endpoint
receive client now exit_message e = (if client then false else true, e)
receive client now timeout e = (true, e)
receive client now error e = (true, e)
receive client now (ping p) e = (true, answer_ping now p e)
receive client now (data_package d) e = (true, record e { socket = handle_data e.socket d })
receive client now (ack a) e = (true, record e { socket = handle_ack e.socket a })
receive client now close e = (true, close_socket (stop_all_thread e))
receive client now unknown e = (true, e)

-- The loop, over what comes in and when.
unfoldable pub receive_all : Bool → List (ℕ × Input) → Endpoint → Endpoint
receive_all client [] e = e
receive_all client ((now, i) ∷ inputs) e =
    let (goes_on, e') = receive client now i e in
    let rest = receive_all client inputs e' in
    if e.socket.worker_running then (if goes_on then rest else e') else e
