-- ===== src/Socket/Sender/Window.antt =====
-- The window of the segment thread, and the ids that packages get.
use sharpvpn.Base.{
  ℕ, zero, suc, ◌+◌, ◌*◌, ◌^◌, ◌≤◌, ◌<◌, ◌≡◌, sym, ap, ◌∙◌, List, [], ◌∷◌, ◌++◌, true, ltb, arith,
  length, advance_bounds,
}
use native.Mathlib.Nat.{mod-eq_of_lt}
use mathlib.Core.List.{append-nil, append_assoc}
use sharpvpn.NetStruct.PackageQueueMap.Queues.{IsValid, pending, push-pending}
use sharpvpn.NetStruct.PackageQueueMap
use sharpvpn.Package.{DataPackage}
use sharpvpn.Socket.Receiver.{
  handle_data, store_data, raise_recv_ack_id, raise_send_ack_id, is_acked,
}
use sharpvpn.Socket.Sender.{Sender, enqueue, window_waits}
use sharpvpn.Socket.State.{Socket, max64}

-- While `send_ack_id` is not ahead of `send_id`, the thread goes on exactly when at most 8000 ids
-- from `send_ack_id` on are in use.
pub window_lem :
    (s : Socket)
    → s.send_ack_id ≤ s.send_id
    → s.send_id < 2 ^ 64
    → window_waits s ≡ ltb (s.send_ack_id + 8000) s.send_id
unfolding window_waits
window_lem s h b = ground arith

unfoldable pub enqueue_all : Sender → List ℕ → Sender
enqueue_all s [] = s
enqueue_all s (address ∷ rest) = enqueue_all (enqueue address s) rest

-- `n` ids from `id` on.
abbrev pub ids_from : ℕ → ℕ → List ℕ
ids_from id zero = []
ids_from id (suc n) = id ∷ ids_from (id + 1) n

-- Packages that the segment thread enqueues, while there is room in the queue and ids do not wrap,
-- get consecutive ids from `send_id` on, and are pending in that order, behind all that was
-- pending.
pub enqueue_all_lem :
    (addresses : List ℕ) (s : Sender)
    → IsValid s.socket.send_pool
    → s.socket.send_pool.len + length addresses ≤ 2 * s.socket.send_pool.capacity
    → s.socket.send_id + length addresses < 2 ^ 64
    → let t = enqueue_all s addresses in
      (t.socket.send_id ≡ s.socket.send_id + length addresses)
      × (pending t.socket.send_pool
          ≡ pending s.socket.send_pool ++ ids_from s.socket.send_id (length addresses))
      × IsValid t.socket.send_pool
unfolding enqueue_all
enqueue_all_lem [] s v r h = (omega arith, sym (append-nil (pending s.socket.send_pool)), v)
enqueue_all_lem (address ∷ rest) s v r h =
    let t = enqueue address s in
    let pushed = push-pending s.socket.send_pool address s.socket.send_id v (omega (arith, r)) in
    let next : t.socket.send_id ≡ s.socket.send_id + 1 =
      unfold enqueue in mod-eq_of_lt (omega (arith, h)) in
    let placed : pending t.socket.send_pool
        ≡ pending s.socket.send_pool ++ (s.socket.send_id ∷ []) =
      unfold enqueue in pushed.1 in
    let more =
      enqueue_all_lem rest t (unfold enqueue in pushed.0)
        (unfold enqueue PackageQueueMap.push in omega (arith, r)) (omega (arith, next, h)) in
    (
      more.0 ∙ omega (arith, next),
      more.1
          ∙ ap (λ i. pending t.socket.send_pool ++ ids_from i (length rest)) next
          ∙ ap (λ l. l ++ ids_from (s.socket.send_id + 1) (length rest)) placed
          ∙ append_assoc (pending s.socket.send_pool) (s.socket.send_id ∷ [])
              (ids_from (s.socket.send_id + 1) (length rest)),
      more.2,
    )

-- What a `Data` package does to `send_ack_id`.
raised_ack :
    (s : Socket) (d : DataPackage)
    → max64 d.una s.send_ack_id + s.ack_recv_pool.size < 2 ^ 64
    → (d.una ≤ (handle_data s d).send_ack_id)
      × ((handle_data s d).send_ack_id ≤ max64 d.una s.send_ack_id + s.ack_recv_pool.size)
      × ((handle_data s d).send_id ≡ s.send_id)
unfolding handle_data raise_send_ack_id raise_recv_ack_id store_data
raised_ack s d h = ground (
  arith,
  advance_bounds (is_acked s.ack_recv_pool) s.ack_recv_pool.size (max64 d.una s.send_ack_id) h,
)

-- The `una` of a `Data` package is not compared with `send_id`, as that of an `Ack` package is.
-- One that is ahead of `send_id`, not below `send_ack_id`, and with the size of the table of
-- acknowledged ids added at most a million ahead of `send_id`, makes the difference of `send_id` and
-- `send_ack_id` wrap, so that the segment thread waits, where `send_id` is more than a million below
-- 2 ^ 64.
pub window-handle_data_stuck :
    (s : Socket) (d : DataPackage)
    → s.send_id < d.una
    → s.send_ack_id ≤ d.una
    → d.una + s.ack_recv_pool.size ≤ s.send_id + 1000000
    → s.send_id + 1000000 < 2 ^ 64
    → window_waits (handle_data s d) ≡ true
window-handle_data_stuck s d a b c r =
    let raised = raised_ack s d (ground (arith, b, c, r)) in
    unfold window_waits in ground (arith, raised, a, b, c, r)
