-- ===== src/Socket/Receiver/Acks/Covered.antt =====
-- What a history of the receiver acknowledges.
use sharpvpn.Base.{
  ℕ, ◌+◌, ◌%◌, ◌^◌, ◌≤◌, ◌<◌, ◌≡◌, leb, List, [], ◌∷◌, ◌++◌, Bool, true, ◌||◌, ◌&&◌, elem,
  elem-append, All, arith, max,
}
use sharpvpn.Crypto.{SharpCrypto}
use sharpvpn.NetStruct.IdSet
use sharpvpn.NetStruct.IdSet.{IdSet}
use sharpvpn.Socket.Receiver.{
  Event, data_arrives, ack_arrives, package_taken, handle, run, handle_data, handle_ack,
  take_package, after_take,
}
use sharpvpn.Socket.State.{Socket, Memory, init}
use sharpvpn.Socket.Receiver.Acks.{acknowledged, una_seen}
use sharpvpn.Socket.Receiver.Acks.Noting.{Acked}
use sharpvpn.Socket.Receiver.Acks.Steps.{data-Acked, weaken-Acked, ack-Acked, take-Acked}

-- The `una` of a `Data` package is bounded; that of an `Ack` package, and its ids, need not be.
abbrev pub UnaBounded : ℕ → Event → Type 0
UnaBounded bound (data_arrives d) = d.una ≤ bound
UnaBounded bound (ack_arrives a) = Unit {0}
UnaBounded bound (package_taken fuel) = Unit {0}

swap_lists :
    (k : ℕ) (xs ys zs : List ℕ)
    → elem k (xs ++ (ys ++ zs)) ≡ true
    → elem k ((ys ++ xs) ++ zs) ≡ true
swap_lists k xs ys zs e = ground (
  arith,
  e,
  elem-append k xs (ys ++ zs),
  elem-append k ys zs,
  elem-append k (ys ++ xs) zs,
  elem-append k ys xs,
)

run-Acked :
    (bound : ℕ) (events : List Event) (ids : List ℕ) (una : ℕ) (s : Socket)
    → All (UnaBounded bound) events
    → Acked bound ids una s
    → Acked bound (acknowledged events ++ ids) (max (una_seen events) una) (run s events)
unfolding run handle acknowledged una_seen
run-Acked bound [] ids una s b c =
    weaken-Acked bound ids ids una (max 0 una) s (λ k e. e) (omega arith) c
run-Acked bound (data_arrives d ∷ events) ids una s b c =
    weaken-Acked bound (acknowledged events ++ ids) (acknowledged events ++ ids)
      (max (una_seen events) (max d.una una)) (max (max d.una (una_seen events)) una)
      (run (handle_data s d) events) (λ k e. e) (omega arith)
      (run-Acked bound events ids (max d.una una) (handle_data s d) b.1
        (data-Acked bound ids una s d b.0 c))
run-Acked bound (ack_arrives a ∷ events) ids una s b c =
    weaken-Acked bound (acknowledged events ++ (a.ack_list ++ ids))
      ((a.ack_list ++ acknowledged events) ++ ids) (max (una_seen events) (max a.una una))
      (max (max a.una (una_seen events)) una) (run (handle_ack s a) events)
      (λ k e. swap_lists k (acknowledged events) a.ack_list ids e) (omega arith)
      (run-Acked bound events (a.ack_list ++ ids) (max a.una una) (handle_ack s a) b.1
        (ack-Acked bound ids una s a c))
run-Acked bound (package_taken fuel ∷ events) ids una s b c =
    run-Acked bound events ids una (after_take s (take_package fuel s)) b.1
      (take-Acked bound ids una fuel s s c c)

-- A new socket that has sent the ids below `id`, where the memory of `acked_ids` was cleared.
pub init-Acked :
    (memory : Memory) (crypto : SharpCrypto) (capacity bound id : ℕ) (running : Bool)
    → ((i : ℕ) → memory.acked_ids i ≡ 0)
    → 0 < capacity
    → bound + capacity + 1 < 2 ^ 64
    → id ≤ bound
    → Acked bound [] 0 (record (init memory crypto capacity running) { send_id = id })
unfolding init IdSet.init
init-Acked memory crypto capacity bound id running z h r i = record {
  slots = h;
  room = r;
  sent = i;
  below = omega arith;
  noted = λ k nz e. absurd (nz (unfold IdSet.find in ground (arith, e, z (k % capacity))));
  covered = λ k nz e. absurd (nz (omega (arith, e)));
}

-- On a socket whose `ack_recv_pool` began with cleared memory and which has sent the ids below
-- `id`, after any history every id up to `send_ack_id` was listed in an `Ack` package, or is no
-- higher than a `una` that came. `send_ack_id` stays within any bound on `id` and on the `una` of
-- `Data` packages, whatever the `Ack` packages say, where the bound leaves room below 2 ^ 64.
pub send_ack_id_covered :
    (memory : Memory) (crypto : SharpCrypto) (capacity bound id : ℕ) (running : Bool)
    (events : List Event) (k : ℕ)
    → ((i : ℕ) → memory.acked_ids i ≡ 0)
    → 0 < capacity
    → bound + capacity + 1 < 2 ^ 64
    → id ≤ bound
    → All (UnaBounded bound) events
    → 0 < k
    → k ≤ (run (record (init memory crypto capacity running) { send_id = id }) events).send_ack_id
    → ((elem k (acknowledged events) || leb k (una_seen events)) && leb k bound) ≡ true
send_ack_id_covered memory crypto capacity bound id running events k z h r i b p e =
    let done =
      run-Acked bound events [] 0 (record (init memory crypto capacity running) { send_id = id }) b
        (init-Acked memory crypto capacity bound id running z h r i) in
    ground
      (arith, done.covered k (omega arith) e, done.below, e, elem-append k (acknowledged events) [])
