-- ===== src/Socket/Receiver/Arrivals.antt =====
-- What `recv_ack_id` says: every id up to it has arrived, or was given up by the other end.
pub mod Steps
pub mod Covered
use sharpvpn.Base.{ℕ, List, [], ◌∷◌, max}
use sharpvpn.Socket.Receiver.{Event, data_arrives, ack_arrives, package_taken}

-- The ids that arrived in `Data` packages, and the highest `send_from` of the `Ack` packages.
unfoldable pub arrived : List Event → List ℕ
arrived [] = []
arrived (data_arrives d ∷ events) = d.package_id ∷ arrived events
arrived (ack_arrives a ∷ events) = arrived events
arrived (package_taken fuel ∷ events) = arrived events

unfoldable pub given_up : List Event → ℕ
given_up [] = 0
given_up (data_arrives d ∷ events) = given_up events
given_up (ack_arrives a ∷ events) = max a.send_from (given_up events)
given_up (package_taken fuel ∷ events) = given_up events
