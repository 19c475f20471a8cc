-- ===== src/Socket/Receiver/Acks/Steps.antt =====
-- Each step of a history keeps what is known of the acknowledged ids.
use sharpvpn.Base.{
  ℕ, zero, suc, ◌≤◌, ◌≡◌, refl, ltb, if◌then◌else◌, List, ◌++◌, true, elem, arith, max,
}
use sharpvpn.Package.{DataPackage, AckPackage}
use sharpvpn.Package.AckQueue
use sharpvpn.Socket.Receiver.{
  handle_data, handle_ack, store_data, raise_recv_ack_id, raise_send_ack_id, fast_resend, note_acks,
  take_package, after_take,
}
use sharpvpn.Socket.Receiver.Take.{
  Round-of, found, closing, passing, waiting, take-found, take-closed, take-passes, take-waits,
  once_passed, once_taken,
}
use sharpvpn.Socket.State.{Socket}
use sharpvpn.Socket.Receiver.Acks.Noting.{Acked, raise-Acked, note-Acked}

-- The fields that the steps below leave alone.
keep-Acked :
    (bound : ℕ) (ids : List ℕ) (una : ℕ) (s t : Socket)
    → t.ack_recv_pool ≡ s.ack_recv_pool
    → t.send_id ≡ s.send_id
    → t.send_ack_id ≡ s.send_ack_id
    → Acked bound ids una s
    → Acked bound ids una t
keep-Acked bound ids una s t p i a c = record {
  slots = rw p c.slots;
  room = rw p c.room;
  sent = rw i c.sent;
  below = rw a c.below;
  noted = rw p c.noted;
  covered = rw a c.covered;
}

pub data-Acked :
    (bound : ℕ) (ids : List ℕ) (una : ℕ) (s : Socket) (d : DataPackage)
    → d.una ≤ bound
    → Acked bound ids una s
    → Acked bound ids (max d.una una) (handle_data s d)
unfolding handle_data
data-Acked bound ids una s d h c =
    let stored = raise_recv_ack_id (store_data s d) in
    let queued = record stored {
      ack_send_queue = AckQueue.push stored.ack_send_queue d.package_id;
    } in
    raise-Acked bound ids una d.una queued h
      (keep-Acked bound ids una s queued (pool-stored s d) (sent-stored s d) (acked-stored s d) c)
  where
    pool-stored :
        (s : Socket) (d : DataPackage)
        → (raise_recv_ack_id (store_data s d)).ack_recv_pool ≡ s.ack_recv_pool
    pool-stored s d = unfold raise_recv_ack_id store_data in ground arith

    sent-stored :
        (s : Socket) (d : DataPackage) → (raise_recv_ack_id (store_data s d)).send_id ≡ s.send_id
    sent-stored s d = unfold raise_recv_ack_id store_data in ground arith

    acked-stored :
        (s : Socket) (d : DataPackage)
        → (raise_recv_ack_id (store_data s d)).send_ack_id ≡ s.send_ack_id
    acked-stored s d = unfold raise_recv_ack_id store_data in ground arith

resend-Acked :
    (bound : ℕ) (ids : List ℕ) (una m : ℕ) (s : Socket)
    → Acked bound ids una s
    → Acked bound ids una (fast_resend s m)
resend-Acked bound ids una m s c =
    keep-Acked bound ids una s (fast_resend s m) (unfold fast_resend in ground arith)
      (unfold fast_resend in ground arith) (unfold fast_resend in ground arith) c

pub weaken-Acked :
    (bound : ℕ) (ids ids' : List ℕ) (una una' : ℕ) (s : Socket)
    → ((k : ℕ) → elem k ids ≡ true → elem k ids' ≡ true)
    → una ≤ una'
    → Acked bound ids una s
    → Acked bound ids' una' s
weaken-Acked bound ids ids' una una' s f h c = record {
  slots = c.slots;
  room = c.room;
  sent = c.sent;
  below = c.below;
  noted = λ k nz e. ground (arith, c.noted k nz e, f k);
  covered = λ k nz e. ground (arith, c.covered k nz e, f k);
}

pub ack-Acked :
    (bound : ℕ) (ids : List ℕ) (una : ℕ) (s : Socket) (a : AckPackage)
    → Acked bound ids una s
    → Acked bound (a.ack_list ++ ids) (max a.una una) (handle_ack s a)
unfolding handle_ack
ack-Acked bound ids una s a c =
    let legal = if ltb s.send_id a.una then 0 else a.una in
    let result = note_acks s.send_ack_id s.send_id a.ack_list 0 s.ack_recv_pool in
    let noted = record s {
      recv_ack_id = if ltb s.recv_ack_id a.send_from then a.send_from else s.recv_ack_id;
      ack_recv_pool = result.1;
    } in
    let once =
      keep-Acked bound (a.ack_list ++ ids) una (record s { ack_recv_pool = result.1 }) noted refl
        refl refl (note-Acked bound ids una 0 a.ack_list s c) in
    let raised = raise_send_ack_id noted legal in
    resend-Acked bound (a.ack_list ++ ids) (max a.una una) result.0 raised (
      weaken-Acked bound (a.ack_list ++ ids) (a.ack_list ++ ids) (max legal una) (max a.una una)
        raised (λ k e. e) (ground arith)
        (raise-Acked bound (a.ack_list ++ ids) una legal noted (ground (arith, c.sent)) once))

pub take-Acked :
    (bound : ℕ) (ids : List ℕ) (una fuel : ℕ) (s b : Socket)
    → Acked bound ids una s
    → Acked bound ids una b
    → Acked bound ids una (after_take b (take_package fuel s))
take-Acked bound ids una zero s b c k = unfold take_package in k
take-Acked bound ids una (suc fuel) s b c k = elim (Round-of s) [
  | found d e ↦
      rw (take-found fuel s d e) (keep-Acked bound ids una s (once_taken fuel s) refl refl refl c)
  | closing e w ↦ rw (take-closed fuel s e w) c
  | waiting e w h ↦ rw (take-waits fuel s e w h) c
  | passing e w h ↦ rw (take-passes fuel s e w h) (
      take-Acked bound ids una fuel (once_passed fuel s) b
        (keep-Acked bound ids una s (once_passed fuel s) refl refl refl c) k)
]
