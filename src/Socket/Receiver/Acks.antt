-- ===== src/Socket/Receiver/Acks.antt =====
-- What a history of the receiver of src/rudp/ReliableSocket.cpp acknowledges, for `send_ack_id`.
pub mod Noting
pub mod Steps
pub mod Covered
use sharpvpn.Base.{ℕ, ◌+◌, List, [], ◌∷◌, ◌++◌, max}
use sharpvpn.Socket.Receiver.{Event, data_arrives, ack_arrives, package_taken}

-- The ids that `Ack` packages list, and the highest `una` that came.
unfoldable pub acknowledged : List Event → List ℕ
acknowledged [] = []
acknowledged (data_arrives d ∷ events) = acknowledged events
acknowledged (ack_arrives a ∷ events) = a.ack_list ++ acknowledged events
acknowledged (package_taken fuel ∷ events) = acknowledged events

unfoldable pub una_seen : List Event → ℕ
una_seen [] = 0
una_seen (data_arrives d ∷ events) = max d.una (una_seen events)
una_seen (ack_arrives a ∷ events) = max a.una (una_seen events)
una_seen (package_taken fuel ∷ events) = una_seen events
