-- ===== src/Socket/Receiver.antt =====
-- `start_thread_receiver` of src/rudp/ReliableSocket.cpp: what a `Data` and an `Ack` package do to
-- the socket, and `recv_package`, which hands the packages on. Each loop has a bound on its rounds.
pub mod Take
pub mod Arrivals
pub mod Delivery
pub mod Order
pub mod Acks
pub mod Skips
mod Tests
use sharpvpn.Base.{
  ℕ, zero, suc, ◌+◌, ◌-◌, ◌%◌, ◌^◌, ltb, leb, ◌==◌, if◌then◌else◌, List, [], ◌∷◌, Bool, true, false,
  not, ◌&&◌, ◌||◌, Option, none, some, is_some, advance,
}
use sharpvpn.NetStruct.IdSet
use sharpvpn.NetStruct.IdSet.{IdSet}
use sharpvpn.NetStruct.PackageMap
use sharpvpn.NetStruct.PackageQueueMap
use sharpvpn.NetStruct.PackageQueueMap.{PackageQueueMap}
use sharpvpn.NetStruct.SegmentParser.{load, next_segment}
use sharpvpn.Crypto.{Secretbox}
use sharpvpn.Package.{DataPackage, AckPackage}
use sharpvpn.Package.AckQueue
use sharpvpn.Socket.State.{Socket, max64, add64}

-- `recv_pool.find(id) != nullptr`, and `ack_recv_pool.find(id) != 0`.
abbrev pub has_arrived : Socket → ℕ → Bool
has_arrived s id = is_some (PackageMap.find s.recv_pool id)

abbrev pub is_acked : IdSet → ℕ → Bool
is_acked pool id = not (IdSet.find pool id == 0)

-- A package that is new and above `recv_ack_id` is kept, any other is dropped.
unfoldable pub store_data : Socket → DataPackage → Socket
store_data s d =
    if not (has_arrived s d.package_id) && ltb s.recv_ack_id d.package_id
    then record s { recv_pool = PackageMap.set s.recv_pool d.package_id d }
    else s

-- `while (recv_pool.find(recv_ack_id + 1) != nullptr) recv_ack_id++;`
unfoldable pub raise_recv_ack_id : Socket → Socket
raise_recv_ack_id s = record s {
  recv_ack_id = advance (has_arrived s) s.recv_pool.capacity s.recv_ack_id;
}

-- `send_ack_id = MAX(...)` and the loop over `ack_recv_pool` that follows it.
unfoldable pub raise_send_ack_id : Socket → ℕ → Socket
raise_send_ack_id s una = record s {
  send_ack_id = advance (is_acked s.ack_recv_pool) s.ack_recv_pool.size (max64 una s.send_ack_id);
}

unfoldable pub handle_data : Socket → DataPackage → Socket
handle_data s d =
    let stored = raise_recv_ack_id (store_data s d) in
    let queued = record stored {
      ack_send_queue = AckQueue.push stored.ack_send_queue d.package_id;
    } in
    raise_send_ack_id queued d.una

-- The loop over the ids of an `Ack` package: the biggest id that counts, and the ids received.
unfoldable pub note_acks : ℕ → ℕ → List ℕ → ℕ → IdSet → ℕ × IdSet
note_acks send_ack_id send_id [] max_ack_id pool = (max_ack_id, pool)
note_acks send_ack_id send_id (ack_id ∷ ids) max_ack_id pool =
    let counts = not (leb ack_id send_ack_id || ltb send_id ack_id) in
    note_acks send_ack_id send_id ids (if counts then max64 max_ack_id ack_id else max_ack_id)
      (if counts && not (is_acked pool ack_id) then IdSet.insert pool ack_id else pool)

-- The fast resend loop, over `count` ids from `resend_id` on.
unfoldable pub resend_missing : ℕ → ℕ → IdSet → PackageQueueMap ℕ → PackageQueueMap ℕ
resend_missing zero resend_id pool q = q
resend_missing (suc count) resend_id pool q =
    resend_missing count (add64 resend_id 1) pool
      (if is_acked pool resend_id then q else PackageQueueMap.resend q resend_id)

unfoldable pub fast_resend : Socket → ℕ → Socket
fast_resend s max_ack_id =
    let now = if ltb s.resend_now s.send_ack_id then s.send_ack_id else s.resend_now in
    if ltb (add64 now 2) max_ack_id
    then record s {
      send_pool =
          resend_missing (max_ack_id - add64 now 1) (add64 now 1) s.ack_recv_pool s.send_pool;
      resend_now = max_ack_id;
    }
    else record s { resend_now = now }

unfoldable pub handle_ack : Socket → AckPackage → Socket
handle_ack s a =
    let ack_una = if ltb s.send_id a.una then 0 else a.una in
    let (max_ack_id, pool) = note_acks s.send_ack_id s.send_id a.ack_list 0 s.ack_recv_pool in
    let noted = record s {
      recv_ack_id = if ltb s.recv_ack_id a.send_from then a.send_from else s.recv_ack_id;
      ack_recv_pool = pool;
    } in
    fast_resend (raise_send_ack_id noted ack_una) max_ack_id

-- `int recv_now = recv_id`, and its conversion back to the `uint64_t` that `erase` takes.
unfoldable pub through_int : ℕ → ℕ
through_int id = let low = id % 2 ^ 32 in if ltb low (2 ^ 31) then low else (2 ^ 64 - 2 ^ 32) + low

-- What the loop of `recv_package` comes to: `recv_cv.wait`, after which the loop of the source goes on,
-- as it does here with another call; the end because the socket is closed; or the end with a
-- package that is taken.
pub data Taken : Type 0 where
  waits : Socket → Taken
  closed : Socket → Taken
  taken : DataPackage → Socket → Taken

-- The loop of `recv_package` up to its first wait, and the taking of a package; `none` means that
-- `fuel` rounds were not enough.
unfoldable pub take_package : ℕ → Socket → Option Taken
take_package zero s = none
take_package (suc fuel) s = elim (PackageMap.find s.recv_pool s.recv_id) [
  | some d ↦ some (
      taken d (record s {
        recv_id = add64 s.recv_id 1;
        recv_pool = PackageMap.erase s.recv_pool (through_int s.recv_id);
      }))
  | none ↦ elim s.worker_running [
    | false ↦ some (closed s)
    | true ↦ elim (ltb s.recv_id s.recv_ack_id) [
      | true ↦ take_package fuel (record s { recv_id = add64 s.recv_id 1 })
      | false ↦ some (waits s)
    ]
  ]
]

-- What a call of `recv_package` comes to; `blocked` is the wait.
pub data Received : Type 0 where
  blocked : Socket → Received
  stopped : Socket → Received
  segment : List ℕ → Socket → Received

-- Loading a package that was taken, and the first segment of it.
abbrev load_taken : Secretbox → Option Taken → Option Received
load_taken box none = none
load_taken box (some (waits s)) = some (blocked s)
load_taken box (some (closed s)) = some (stopped s)
load_taken box (some (taken d s)) =
    let (seg, parser) = next_segment (load box s.segment_recv d.bytes) in
    some (segment seg (record s { segment_recv = parser }))

-- `recv_package`: the next segment of the package in hand, or the first of the next package.
unfoldable pub recv_package : Secretbox → ℕ → Socket → Option Received
recv_package box fuel s =
    let (seg, parser) = next_segment s.segment_recv in
    elim seg [
      | [] ↦ load_taken box (take_package fuel (record s { segment_recv = parser }))
      | x ∷ xs ↦ some (segment (x ∷ xs) (record s { segment_recv = parser }))
    ]

-- What the receiver thread and the readers do to a socket, one after the other: the mutexes make
-- each of these a step of its own.
pub data Event : Type 0 where
  data_arrives : DataPackage → Event
  ack_arrives : AckPackage → Event
  package_taken : ℕ → Event

-- The state after a package was taken, or was not.
abbrev pub after_take : Socket → Option Taken → Socket
after_take s none = s
after_take s (some (waits t)) = t
after_take s (some (closed t)) = t
after_take s (some (taken d t)) = t

unfoldable pub handle : Socket → Event → Socket
handle s (data_arrives d) = handle_data s d
handle s (ack_arrives a) = handle_ack s a
handle s (package_taken fuel) = after_take s (take_package fuel s)

unfoldable pub run : Socket → List Event → Socket
run s [] = s
run s (e ∷ events) = run (handle s e) events
