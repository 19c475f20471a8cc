-- ===== src/Socket/Receiver/Tests.antt =====
-- Histories of a receiver, and the theorems at concrete inputs.
use sharpvpn.Base.{
  ℕ, ◌+◌, ◌^◌, ◌≤◌, ◌≡◌, refl, List, [], ◌∷◌, true, false, ◌||◌, ◌&&◌, some, elem, leb, All, arith,
  advance,
}
use sharpvpn.Crypto.Tests.{test_crypto}
use sharpvpn.NetStruct.IdSet
use sharpvpn.NetStruct.PackageMap
use sharpvpn.Package.{DataPackage}
use sharpvpn.Socket.State.{Socket, Memory, init}
use sharpvpn.Socket.Receiver.{
  Event, data_arrives, ack_arrives, package_taken, handle, run, handle_data, handle_ack, store_data,
  raise_recv_ack_id, raise_send_ack_id, fast_resend, note_acks, resend_missing, take_package,
  after_take, has_arrived, taken, through_int,
}
use sharpvpn.Socket.Receiver.Acks.{acknowledged, una_seen}
use sharpvpn.Socket.Receiver.Acks.Covered.{send_ack_id_covered}
use sharpvpn.Socket.Receiver.Arrivals.{arrived, given_up}
use sharpvpn.Socket.Receiver.Arrivals.Covered.{recv_ack_id_covered}
use sharpvpn.Socket.Receiver.Delivery.{ids_taken, Outcome, Takes, take-Outcome, take_package_ends}
use sharpvpn.Socket.Receiver.Order.{delivered, Ascending}
use sharpvpn.Socket.Receiver.Order.Histories.{delivered-Ascending}
use sharpvpn.Socket.Receiver.Order.Steps.{handle_data_lem}
use sharpvpn.Socket.Receiver.Skips.{take_package_keeps}

abbrev cleared : Memory
cleared = record { ack_ids = λ _. 0; acked_ids = λ _. 0; segment_buf = λ _. 0 }

abbrev new_socket : Socket
new_socket = init cleared test_crypto 8 true

abbrev package_of : ℕ → DataPackage
package_of id = record { package_id = id; una = 0; bytes = id ∷ [] }

-- Packages 2 and 1 arrive, 3 is given up, 5 arrives, and three packages are taken.
abbrev history : List Event
history =
    data_arrives (package_of 2)
    ∷ data_arrives (package_of 1)
    ∷ ack_arrives (record { una = 0; send_from = 3; ack_list = [] })
    ∷ data_arrives (package_of 5)
    ∷ package_taken 9
    ∷ package_taken 9
    ∷ package_taken 9
    ∷ []

delivered_in_order : delivered new_socket history ≡ 1 ∷ 2 ∷ []
unfolding delivered ids_taken init handle_data handle_ack store_data raise_recv_ack_id
    raise_send_ack_id note_acks fast_resend take_package through_int advance PackageMap.init
    PackageMap.find PackageMap.set PackageMap.erase IdSet.init IdSet.find
delivered_in_order = refl

-- Package 1 arrives, then 3 is given up.
abbrev arrivals : List Event
arrivals =
    data_arrives (package_of 1)
    ∷ ack_arrives (record { una = 0; send_from = 3; ack_list = [] })
    ∷ []

recv_ack_id_covered_example : (elem 3 (arrived arrivals) || leb 3 (given_up arrivals)) ≡ true
unfolding run handle init handle_data handle_ack store_data raise_recv_ack_id raise_send_ack_id
    note_acks fast_resend advance PackageMap.init PackageMap.find PackageMap.set IdSet.init
    IdSet.find
recv_ack_id_covered_example =
    recv_ack_id_covered cleared test_crypto 4 100 true arrivals 3 (omega arith) (omega arith)
      (omega arith, (omega arith, tt)) (omega arith) (omega arith)

-- Ids 1 and 2 are acknowledged.
abbrev acks : List Event
acks = ack_arrives (record { una = 1; send_from = 0; ack_list = 2 ∷ 9 ∷ [] }) ∷ []

send_ack_id_covered_example :
    ((elem 2 (acknowledged acks) || leb 2 (una_seen acks)) && leb 2 100) ≡ true
unfolding run handle init handle_ack raise_send_ack_id note_acks fast_resend resend_missing advance
    IdSet.init IdSet.find IdSet.insert
send_ack_id_covered_example =
    send_ack_id_covered cleared test_crypto 4 100 5 true acks 2 (λ i. refl) (omega arith)
      (omega arith) (omega arith) (tt, tt) (omega arith) (omega arith)

delivered-Ascending_example :
    Ascending 1 (delivered new_socket history)
    × All (λ k. elem k (arrived history) ≡ true) (delivered new_socket history)
delivered-Ascending_example =
    delivered-Ascending cleared test_crypto 8 100 true history (omega arith) (omega arith)
      (omega arith, (omega arith, (omega arith, (omega arith, (tt, (tt, (tt, tt)))))))

handle_data_lem_example :
    (has_arrived (handle_data new_socket (package_of 1)) 1 ≡ true)
    × (has_arrived
          (handle_data new_socket (package_of 1))
          ((handle_data new_socket (package_of 1)).recv_ack_id + 1)
        ≡ false)
handle_data_lem_example =
    handle_data_lem new_socket (package_of 1) 1 (unfold init PackageMap.init in omega arith)
      (unfold init PackageMap.init in omega arith) (unfold init in omega arith)
      (unfold init handle_data store_data raise_recv_ack_id raise_send_ack_id advance
          PackageMap.init PackageMap.find PackageMap.set in
        omega arith)

-- Ids 1 to 3 were given up, package 4 has arrived.
abbrev socket_ahead : Socket
socket_ahead = record new_socket {
  recv_ack_id = 4;
  recv_pool = PackageMap.set (PackageMap.init 8) 4 (package_of 4);
}

take_package_ends_example :
    (e : DataPackage) × (t : Socket) × (first : ℕ) × (take_package 4 socket_ahead
      ≡ some (taken e t))
    × (first ≤ 4)
    × Takes socket_ahead e t first
take_package_ends_example =
    take_package_ends 4 socket_ahead 4 (package_of 4) (unfold init in refl)
      (unfold init in omega arith) (unfold init in omega arith)
      (unfold PackageMap.init PackageMap.find PackageMap.set in refl) (unfold init in omega arith)
      (omega arith)

take-Outcome_example : Outcome new_socket (take_package 3 new_socket)
take-Outcome_example = take-Outcome 3 new_socket (unfold init in omega arith)

-- A socket that is about to hand on package 2 ^ 31.
abbrev late_socket : Socket
late_socket = record new_socket {
  recv_id = 2 ^ 31;
  recv_pool = PackageMap.set (PackageMap.init 4) (2 ^ 31) (package_of (2 ^ 31));
}

take_package_keeps_example :
    PackageMap.find (after_take late_socket (take_package 1 late_socket)).recv_pool (2 ^ 31)
    ≡ some (package_of (2 ^ 31))
take_package_keeps_example =
    take_package_keeps 0 late_socket (package_of (2 ^ 31))
      (unfold PackageMap.init PackageMap.find PackageMap.set in refl) (omega arith) (omega arith)
