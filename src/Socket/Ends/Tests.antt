-- ===== src/Socket/Ends/Tests.antt =====
-- One package that arrives, and its acknowledgement.
use sharpvpn.Base.{◌<◌, ◌≡◌, refl, leb, [], ◌∷◌, ◌++◌, true, ◌||◌, elem, inl, arith, advance}
use sharpvpn.Crypto.Tests.{test_crypto}
use sharpvpn.NetStruct.IdSet
use sharpvpn.NetStruct.PackageMap
use sharpvpn.NetStruct.Ring
use sharpvpn.Package.{DataPackage, AckPackage}
use sharpvpn.Package.AckQueue
use sharpvpn.Package.PackageAck
use sharpvpn.Socket.State.{Memory, init}
use sharpvpn.Socket.Receiver.{
  handle_data, handle_ack, store_data, raise_recv_ack_id, raise_send_ack_id, fast_resend, note_acks,
}
use sharpvpn.Socket.Sender.{ack_tick, ack_packages}
use sharpvpn.Socket.Ends.{
  Ends, Reachable, begin, data_to_receiver, copies, sends_acks, ack_to_sender, gives_ids, new_ends,
  rebased, Sent,
}
use sharpvpn.Socket.Ends.Sound.{send_ack_id_arrived}

abbrev cleared : Memory
cleared = record { ack_ids = λ _. 0; acked_ids = λ _. 0; segment_buf = λ _. 0 }

abbrev start : Ends
start = new_ends cleared cleared test_crypto test_crypto 8

abbrev first : DataPackage
first = record { package_id = 1; una = 0; bytes = [] }

abbrev answer : AckPackage
answer = record { una = 1; send_from = 0; ack_list = [] }

abbrev sent : Ends
sent = record start { sender = record (start.sender) { send_id = 2 } }

abbrev received : Ends
received = record sent { receiver = handle_data sent.receiver first; arrived = 1 ∷ [] }

abbrev copied : Ends
copied = record received { copied = received.receiver; receiver = rebased received.receiver }

abbrev answered : Ends
answered = record copied { acks = (ack_tick (λ _. 1) (λ _. 0) copied.copied).0 ++ [] }

abbrev heard : Ends
heard = record answered { sender = handle_ack answered.sender answer }

room : sent.receiver.ack_send_queue.len < sent.receiver.ack_send_queue.capacity
unfolding init Ring.init
room = omega arith

received_one : received.receiver.recv_ack_id ≡ 1
unfolding init handle_data store_data raise_recv_ack_id raise_send_ack_id advance PackageMap.init
    PackageMap.set PackageMap.find IdSet.init IdSet.find
received_one = refl

answer_sent : Sent answer answered.acks
unfolding ack_tick ack_packages PackageAck.ack_rounds PackageAck.load_ids AckQueue.size
    AckQueue.push AckQueue.pop Ring.size Ring.push Ring.pop Ring.init init handle_data store_data
    raise_recv_ack_id raise_send_ack_id PackageMap.find PackageMap.init PackageAck.load
answer_sent = inl refl

released_one : heard.sender.send_ack_id ≡ 1
unfolding init handle_ack note_acks raise_send_ack_id fast_resend advance IdSet.init IdSet.find
released_one = refl

heard-Reachable : Reachable 10 start heard
heard-Reachable =
    ack_to_sender answer
      (sends_acks (λ _. 1) (λ _. 0)
        (copies (data_to_receiver first (gives_ids 2 begin (omega arith)) (omega arith) room))
        (λ i. omega (arith, received_one)))
      answer_sent

send_ack_id_arrived_example : (elem 1 heard.arrived || leb 1 heard.given_up) ≡ true
send_ack_id_arrived_example =
    send_ack_id_arrived cleared cleared test_crypto test_crypto 8 10 heard 1 (λ i. refl)
      (omega arith) (omega arith) (omega arith) heard-Reachable (omega arith)
      (omega (arith, released_one))
