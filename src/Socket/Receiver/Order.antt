-- ===== src/Socket/Receiver/Order.antt =====
-- The packages that `recv_package` of src/rudp/ReliableSocket.cpp hands on over a whole history.
pub mod Steps
pub mod Histories
use sharpvpn.Base.{ℕ, ◌+◌, ◌≤◌, List, [], ◌∷◌, ◌++◌}
use sharpvpn.Socket.Receiver.{
  Event, data_arrives, ack_arrives, package_taken, handle_data, handle_ack, take_package,
  after_take,
}
use sharpvpn.Socket.Receiver.Delivery.{ids_taken}
use sharpvpn.Socket.State.{Socket}

-- The ids of the packages handed on, in order, as the events of a history come.
unfoldable pub delivered : Socket → List Event → List ℕ
delivered s [] = []
delivered s (data_arrives d ∷ events) = delivered (handle_data s d) events
delivered s (ack_arrives a ∷ events) = delivered (handle_ack s a) events
delivered s (package_taken fuel ∷ events) =
    ids_taken (take_package fuel s) ++ delivered (after_take s (take_package fuel s)) events

-- Strictly ascending, from `lo` on.
abbrev pub Ascending : ℕ → List ℕ → Type 0
Ascending lo [] = Unit {0}
Ascending lo (x ∷ xs) = (lo ≤ x) × Ascending (x + 1) xs
