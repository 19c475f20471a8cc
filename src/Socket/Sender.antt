-- ===== src/Socket/Sender.antt =====
-- `start_thread_sender` and `start_thread_ackhandler` of src/rudp/ReliableSocket.cpp, and the end of
-- `start_thread_segment`, which gives a package its id. A package is its address in `packages`.
-- Times are in milliseconds, and the clock does not go back.
pub mod Window
pub mod FastStart
pub mod Timeouts
pub mod GiveUp
pub mod AckTick
mod Tests
use sharpvpn.Base.{
  ℕ, zero, suc, ◌+◌, ◌-◌, ◌*◌, ◌%◌, ◌^◌, ltb, leb, ◌==◌, if◌then◌else◌, List, [], ◌∷◌, map, Bool,
  true, false, ◌||◌, ◌&&◌, Option, none, some, update,
}
use sharpvpn.NetStruct.AckWaitList
use sharpvpn.NetStruct.AckWaitList.{AckWaitList}
use sharpvpn.NetStruct.PackageQueueMap
use sharpvpn.Package.{AckPackage}
use sharpvpn.Package.AckQueue
use sharpvpn.Package.PackageAck.{ack_rounds}
use sharpvpn.Socket.Receiver.{is_acked}
use sharpvpn.Socket.State.{Socket, add64}

-- The fields of `PackageData` that the threads use.
pub record Outgoing : Type 0 where
  pub package_id : ℕ
  pub una : ℕ
  pub send_count : ℕ
  pub send_time : ℕ

pub record Sender : Type 0 where
  pub socket : Socket
  pub packages : ℕ → Outgoing
  pub ack_pool : AckWaitList ℕ
  pub fast_start : Bool
  pub fast_start_count : ℕ
  pub rto : ℕ

-- `set_rto`
unfoldable pub set_rto : ℕ → Sender → Sender
set_rto rtt s = record s { rto = if ltb (2 * rtt) 30 then 30 else 2 * rtt }

-- `while (send_id - send_ack_id > 8000)`: whether the segment thread waits. The difference is that
-- of `uint64_t`.
unfoldable pub window_waits : Socket → Bool
window_waits s = ltb 8000 ((2 ^ 64 + s.send_id - s.send_ack_id) % 2 ^ 64)

-- The segment thread puts the package at `address` into the pool, under the next id. It is new, so
-- that it was not sent yet, whatever was at the address before.
unfoldable pub enqueue : ℕ → Sender → Sender
enqueue address s = record s {
  packages =
      update s.packages address
        (record (s.packages address) { package_id = s.socket.send_id; send_count = 0 });
  socket = record (s.socket) {
    send_pool = PackageQueueMap.push s.socket.send_pool address s.socket.send_id;
    send_id = add64 s.socket.send_id 1;
  };
}

-- What a round of the main sender sends: so many copies of the package at an address.
pub record Sending : Type 0 where
  pub address : ℕ
  pub copies : ℕ
  pub fast_copies : ℕ

-- The sending of the package that was popped.
unfoldable pub send_popped : ℕ → ℕ → Sender → Sending × Sender
send_popped now address s =
    let count = (s.packages address).send_count + 1 in
    let starts = s.fast_start_count + 1 in
    let sent = record (s.packages address) {
      una = s.socket.recv_ack_id;
      send_count = count;
      send_time = now;
    } in
    (
      record {
        address = address;
        copies = 1 + (if leb 2 count then 1 else 0);
        fast_copies = if s.fast_start then 1 else 0;
      },
      record s {
        packages = update s.packages address sent;
        ack_pool = AckWaitList.push (λ a. (s.packages a).package_id) s.ack_pool address;
        fast_start_count =
            if s.fast_start then (if starts == 10 then 0 else starts) else s.fast_start_count;
        fast_start = s.fast_start && not_tenth starts;
      },
    )
  where
    not_tenth : ℕ → Bool
    not_tenth starts = if starts == 10 then false else true

-- A round of the main sender: it waits on an empty pool, and does nothing more when `pop` gives the
-- null pointer.
unfoldable pub send_next : ℕ → Sender → Option Sending × Sender
send_next now s =
    if PackageQueueMap.size s.socket.send_pool == 0
    then (none, s)
    else (let (popped, pool) = PackageQueueMap.pop s.socket.send_pool in
        let rest = record s { socket = record (s.socket) { send_pool = pool } } in
        elim popped [
          | none ↦ (none, rest)
          | some address ↦
              (let (sending, next) = send_popped now address rest in (some sending, next))
        ])

-- The ids of each round as a package; `una` and `from` are what `recv_ack_id` and `send_from` are
-- in that round.
unfoldable pub ack_packages : (ℕ → ℕ) → (ℕ → ℕ) → ℕ → List (List ℕ) → List AckPackage
ack_packages una from round [] = []
ack_packages una from round (ids ∷ rounds) =
    record { una = una round; send_from = from round; ack_list = ids }
    ∷ ack_packages una from (suc round) rounds

-- A tick of the ack sender: the packages sent, each of which stands for two calls of `sendto`. The
-- queue is copied and rebased under its mutex. The copy is a snapshot here; in the source it shares
-- its array with the queue, whose slots a full turn of pushes would overwrite.
unfoldable pub ack_tick : (ℕ → ℕ) → (ℕ → ℕ) → Socket → List AckPackage × Socket
ack_tick una from s = (
  ack_packages una from 0 (ack_rounds (AckQueue.size s.ack_send_queue) una 0 s.ack_send_queue),
  record s { ack_send_queue = AckQueue.rebase s.ack_send_queue },
)

-- What a look at a package that waits for its acknowledgement shows.
pub data Verdict : Type 0 where
  arrived : Verdict
  timed_out : Verdict
  sleeps : ℕ → Verdict

-- A round of the ack handler's inner loop, at the time `now`.
unfoldable pub look : ℕ → Sender → ℕ → Verdict
look now s address =
    let p = s.packages address in
    let time_spend = now - p.send_time in
    if ltb s.socket.send_ack_id p.package_id
    then (if is_acked s.socket.ack_recv_pool p.package_id
        then arrived
        else (if ltb time_spend s.rto then sleeps (s.rto - time_spend) else timed_out))
    else arrived

-- `send_from`, once the package `id` is dropped.
unfoldable pub raise_send_from : ℕ → Socket → Socket
raise_send_from id s = record s {
  send_from = if ltb s.send_from id then add64 id 1 else s.send_from;
}

unfoldable pub erase_package : ℕ → Socket → Socket
erase_package id s = record s { send_pool = PackageQueueMap.erase s.send_pool id }

unfoldable pub resend_package : ℕ → Socket → Socket
resend_package id s = record s { send_pool = PackageQueueMap.resend s.send_pool id }

-- A round of the ack handler for the package that it popped: at the time `now` it either settles
-- the package, or (`none`) it sleeps and looks again.
unfoldable pub handle_waiting : ℕ → ℕ → Sender → Option Sender
handle_waiting now address s =
    let p = s.packages address in
    if ltb 20 p.send_count
    then some
        (record s { socket = raise_send_from p.package_id (erase_package p.package_id s.socket) })
    else elim (look now s address) [
      | arrived ↦ some (record s { socket = erase_package p.package_id s.socket })
      | timed_out ↦ some (record s { socket = resend_package p.package_id s.socket })
      | sleeps ms ↦ none
    ]

-- The time at which the handler has settled a package that it popped, if nothing else happens
-- meanwhile: at most `fuel` rounds, each after the sleep of the round before.
unfoldable pub settle_waiting : ℕ → ℕ → ℕ → Sender → Option (ℕ × Sender)
settle_waiting zero now address s = none
settle_waiting (suc fuel) now address s = elim (handle_waiting now address s) [
  | some t ↦ some (now, t)
  | none ↦ elim (look now s address) [
    | arrived ↦ none
    | timed_out ↦ none
    | sleeps ms ↦ settle_waiting fuel (now + ms) address s
  ]
]
