-- ===== src/Socket/Sender/Tests.antt =====
-- Runs of the sender, and the theorems at concrete inputs.
use sharpvpn.Base.{◌≤◌, ◌≡◌, refl, [], ◌∷◌, true, false, some, ltb, min, length, keep, All, arith}
use sharpvpn.Crypto.Tests.{test_crypto}
use sharpvpn.NetStruct.AckWaitList
use sharpvpn.NetStruct.IdSet
use sharpvpn.NetStruct.PackageMap
use sharpvpn.NetStruct.PackageQueueMap
use sharpvpn.NetStruct.PackageQueueMap.Queues.{IsValid}
use sharpvpn.NetStruct.Ring
use sharpvpn.NetStruct.Ring.{contents}
use sharpvpn.NetStruct.Ring.Contents.{init-IsValid, push-IsValid}
use sharpvpn.Package.AckQueue
use sharpvpn.Socket.Receiver.{handle_data, handle_ack, has_arrived}
use sharpvpn.Socket.Sender.{
  Sender, enqueue, send_next, send_popped, window_waits, ack_tick, handle_waiting, settle_waiting,
  raise_send_from, erase_package,
}
use sharpvpn.Socket.Sender.AckTick.{acks_of, ack_tick_lem}
use sharpvpn.Socket.Sender.FastStart.{send_rounds, fast_total, fast_left, send_rounds-fast_total}
use sharpvpn.Socket.Sender.GiveUp.{handle_waiting_skips_next}
use sharpvpn.Socket.Sender.Timeouts.{settled, settle_time, settle_waiting_lem}
use sharpvpn.Socket.Sender.Window.{window-handle_data_stuck}
use sharpvpn.Socket.State.{Socket, init}

abbrev new_socket : Socket
new_socket =
    init (record { ack_ids = λ _. 0; acked_ids = λ _. 0; segment_buf = λ _. 0 }) test_crypto 4 true

abbrev new_sender : Sender
new_sender = record {
  socket = new_socket;
  packages = λ _. record { package_id = 0; una = 0; send_count = 0; send_time = 0 };
  ack_pool = AckWaitList.init (λ _. 0) 4;
  fast_start = true;
  fast_start_count = 0;
  rto = 30;
}

-- The package at address 7 is sent twice in the fast start, then the pool is empty.
send_two_copies :
    fast_total (send_rounds (λ now socket. socket) (5 ∷ 6 ∷ []) (enqueue 7 new_sender)) ≡ 1
unfolding send_rounds send_next send_popped enqueue init PackageQueueMap.init PackageQueueMap.push
    PackageQueueMap.pop PackageQueueMap.size PackageQueueMap.at AckWaitList.init AckWaitList.push
send_two_copies = refl

window-handle_data_stuck_example :
    window_waits (handle_data new_socket (record { package_id = 1; una = 50; bytes = [] })) ≡ true
window-handle_data_stuck_example =
    window-handle_data_stuck new_socket (record { package_id = 1; una = 50; bytes = [] })
      (unfold init in omega arith) (unfold init in omega arith)
      (unfold init IdSet.init in omega arith) (unfold init in omega arith)

new_pool-IsValid : IsValid new_socket.send_pool
unfolding init PackageQueueMap.init
new_pool-IsValid = record {
  sends_valid = record { start_in = omega arith; len_in = omega arith; end_at = refl };
  resends_valid = record { start_in = omega arith; len_in = omega arith; end_at = refl };
}

send_rounds-fast_total_example :
    fast_total (send_rounds (λ now socket. socket) (5 ∷ 6 ∷ []) (enqueue 7 new_sender))
    ≡ min
        (length (send_rounds (λ now socket. socket) (5 ∷ 6 ∷ []) (enqueue 7 new_sender)))
        (fast_left (enqueue 7 new_sender))
send_rounds-fast_total_example =
    send_rounds-fast_total (λ now socket. socket) (5 ∷ 6 ∷ []) (enqueue 7 new_sender)
      (unfold enqueue in omega arith)

-- A package that was sent once, at the time 100, and one that was sent too often.
abbrev waiting_sender : Sender
waiting_sender = record new_sender {
  packages = λ _. record { package_id = 1; una = 0; send_count = 1; send_time = 100 };
}

abbrev tired_sender : Sender
tired_sender = record new_sender {
  packages = λ _. record { package_id = 1; una = 0; send_count = 21; send_time = 100 };
}

settle_waiting_lem_example :
    settle_waiting 2 110 7 waiting_sender
    ≡ some (
      settle_time 110 waiting_sender (waiting_sender.packages 7),
      settled waiting_sender (waiting_sender.packages 7),
    )
settle_waiting_lem_example = settle_waiting_lem 0 110 7 waiting_sender (omega arith)

handle_waiting_skips_next_example :
    has_arrived
      (handle_data
        (handle_ack new_socket (record { una = 0; send_from = 2; ack_list = [] }))
        (record { package_id = 2; una = 0; bytes = [] }))
      2
    ≡ false
handle_waiting_skips_next_example =
    handle_waiting_skips_next 110 7 tired_sender
      (record tired_sender { socket = raise_send_from 1 (erase_package 1 new_socket) }) new_socket
      (record { una = 0; send_from = 2; ack_list = [] })
      (record { package_id = 2; una = 0; bytes = [] }) (omega arith) (unfold init in omega arith)
      (omega arith) (unfold handle_waiting in refl)
      (unfold raise_send_from erase_package init in refl) refl
      (unfold init PackageMap.init PackageMap.find in refl)

new_queue-IsValid : Ring.IsValid new_socket.ack_send_queue
unfolding init
new_queue-IsValid = init-IsValid (λ _. 0) 4 (omega arith)

-- Ids 2 and 5 are queued.
abbrev socket_with_ids : Socket
socket_with_ids = record new_socket {
  ack_send_queue = AckQueue.push (AckQueue.push new_socket.ack_send_queue 2) 5;
}

queue_with_ids-IsValid : Ring.IsValid socket_with_ids.ack_send_queue
unfolding AckQueue.push
queue_with_ids-IsValid =
    push-IsValid (Ring.push new_socket.ack_send_queue 2) 5
      (push-IsValid new_socket.ack_send_queue 2 new_queue-IsValid
        (unfold init Ring.init in omega arith))
      (unfold init Ring.init Ring.push in omega arith)

ack_tick_lem_example :
    let r = ack_tick (λ _. 3) (λ _. 0) socket_with_ids in
    (keep (ltb 3) (acks_of r.0) ≡ 5 ∷ [])
    × All (λ a. length a.ack_list ≤ 35) r.0
    × (contents r.1.ack_send_queue ≡ [])
    × Ring.IsValid r.1.ack_send_queue
unfolding init AckQueue.push Ring.init Ring.push
ack_tick_lem_example =
    ack_tick_lem (λ _. 3) (λ _. 0) 3 socket_with_ids queue_with_ids-IsValid (λ r. omega arith)
