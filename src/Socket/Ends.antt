-- ===== src/Socket/Ends.antt =====
-- The two ends of a connection of src/rudp/ReliableSocket.cpp, and the network between them: what
-- one end acknowledges, and what the other end takes from the acknowledgements that reach it. The
-- network may lose packages, repeat them and change their order.
pub mod Acks
pub mod Invariant
pub mod Sound
mod Tests
use sharpvpn.Base.{ℕ, ◌≤◌, ◌<◌, ◌≡◌, ◌⊎◌, List, [], ◌∷◌, ◌++◌, Bool, true, elem, max}
use sharpvpn.Crypto.{SharpCrypto}
use sharpvpn.Package.{DataPackage, AckPackage}
use sharpvpn.Package.AckQueue
use sharpvpn.Socket.State.{Socket, Memory, init}
use sharpvpn.Socket.Receiver.{handle_data, handle_ack, take_package, after_take}
use sharpvpn.Socket.Sender.{ack_tick}

-- `receiver` is the end whose acknowledgements are followed, `copied` the socket when its ack sender
-- last copied the queue, and `sender` the other end. Of the history: the ids that arrived at the
-- receiver, the highest `send_from` that did, the `Ack` packages that were sent, and the values of
-- `recv_ack_id` that went into `Data` packages.
pub record Ends : Type 0 where
  pub receiver : Socket
  pub copied : Socket
  pub sender : Socket
  pub arrived : List ℕ
  pub given_up : ℕ
  pub acks : List AckPackage
  pub unas : List ℕ

abbrev pub Sent : AckPackage → List AckPackage → Type 0
Sent a [] = ⊥
Sent a (b ∷ acks) = (a ≡ b) ⊎ Sent a acks

-- The queue is copied and rebased; the packages of the copy go out later, and twice.
abbrev pub rebased : Socket → Socket
rebased s = record s { ack_send_queue = AckQueue.rebase s.ack_send_queue }

-- What can happen. The ids of `Data` packages, `send_from`, and the ids given out stay within
-- `bound`, and a `Data` package finds room in the queue of acknowledgements.
pub data Reachable (bound : ℕ) (start : Ends) : Ends → Type 0 where
  begin : Reachable bound start start
  data_to_receiver :
      {e : Ends} (d : DataPackage)
      → Reachable bound start e
      → d.package_id ≤ bound
      → e.receiver.ack_send_queue.len < e.receiver.ack_send_queue.capacity
      → Reachable bound start
          (record e { receiver = handle_data e.receiver d; arrived = d.package_id ∷ e.arrived })
  ack_to_receiver :
      {e : Ends} (a : AckPackage)
      → Reachable bound start e
      → a.send_from ≤ bound
      → Reachable bound start
          (record e { receiver = handle_ack e.receiver a; given_up = max a.send_from e.given_up })
  receiver_takes :
      {e : Ends} (fuel : ℕ)
      → Reachable bound start e
      → Reachable bound start
          (record e { receiver = after_take e.receiver (take_package fuel e.receiver) })
  copies :
      {e : Ends}
      → Reachable bound start e
      → Reachable bound start (record e { copied = e.receiver; receiver = rebased e.receiver })
  -- `una` is what `recv_ack_id` was in each round, so no more than it is once all have gone out.
  sends_acks :
      {e : Ends} (una from : ℕ → ℕ)
      → Reachable bound start e
      → ((i : ℕ) → una i ≤ e.receiver.recv_ack_id)
      → Reachable bound start (record e { acks = (ack_tick una from e.copied).0 ++ e.acks })
  -- A `Data` package of the receiver's own takes `recv_ack_id` along.
  stamps :
      {e : Ends}
      → Reachable bound start e
      → Reachable bound start (record e { unas = e.receiver.recv_ack_id ∷ e.unas })
  ack_to_sender :
      {e : Ends} (a : AckPackage)
      → Reachable bound start e
      → Sent a e.acks
      → Reachable bound start (record e { sender = handle_ack e.sender a })
  data_to_sender :
      {e : Ends} (d : DataPackage)
      → Reachable bound start e
      → elem d.una e.unas ≡ true
      → Reachable bound start (record e { sender = handle_data e.sender d })
  sender_takes :
      {e : Ends} (fuel : ℕ)
      → Reachable bound start e
      → Reachable bound start
          (record e { sender = after_take e.sender (take_package fuel e.sender) })
  -- The segment thread gives out ids.
  gives_ids :
      {e : Ends} (id : ℕ)
      → Reachable bound start e
      → id ≤ bound
      → Reachable bound start (record e { sender = record (e.sender) { send_id = id } })

-- Two new sockets of a capacity.
abbrev pub new_ends : Memory → Memory → SharpCrypto → SharpCrypto → ℕ → Ends
new_ends memory memory' crypto crypto' capacity =
    let receiver = init memory crypto capacity true in
    record {
      receiver = receiver;
      copied = receiver;
      sender = init memory' crypto' capacity true;
      arrived = [];
      given_up = 0;
      acks = [];
      unas = [];
    }
