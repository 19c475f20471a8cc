-- ===== src/Socket/Receiver/Arrivals/Covered.antt =====
-- What a history of the receiver has in hand.
use sharpvpn.Base.{
  ℕ, ◌+◌, ◌^◌, ◌≤◌, ◌<◌, ◌≡◌, leb, List, [], ◌∷◌, Bool, true, ◌||◌, elem, ◌++◌, elem-append, All,
  arith, max,
}
use sharpvpn.NetStruct.PackageMap
use sharpvpn.Socket.State.{Socket, Memory, init}
use sharpvpn.Crypto.{SharpCrypto}
use sharpvpn.Socket.Receiver.{
  Event, data_arrives, ack_arrives, package_taken, handle, run, handle_data, handle_ack,
  take_package, after_take,
}
use sharpvpn.Socket.Receiver.Arrivals.{arrived, given_up}
use sharpvpn.Socket.Receiver.Arrivals.Steps.{Covers, data-Covers, ack-Covers, take-Covers}

Covers-mono :
    (bound : ℕ) (ids ids' : List ℕ) (from from' : ℕ) (s : Socket)
    → ((k : ℕ) → elem k ids ≡ true → elem k ids' ≡ true)
    → from ≤ from'
    → Covers bound ids from s
    → Covers bound ids' from' s
Covers-mono bound ids ids' from from' s f h c = record {
  slots = c.slots;
  room = c.room;
  below = c.below;
  stored = λ k nz e. (f k (c.stored k nz e).0, (c.stored k nz e).1);
  covered = λ k nz e. ground (arith, c.covered k nz e, f k);
}

-- No id of an event goes beyond the bound.
abbrev pub Bounded : ℕ → Event → Type 0
Bounded bound (data_arrives d) = d.package_id ≤ bound
Bounded bound (ack_arrives a) = a.send_from ≤ bound
Bounded bound (package_taken fuel) = Unit {0}

run-Covers :
    (bound : ℕ) (events : List Event) (ids : List ℕ) (from : ℕ) (s : Socket)
    → All (Bounded bound) events
    → Covers bound ids from s
    → Covers bound (arrived events ++ ids) (max (given_up events) from) (run s events)
unfolding run handle arrived given_up
run-Covers bound [] ids from s b c =
    Covers-mono bound ids ids from (max 0 from) s (λ k e. e) (omega arith) c
run-Covers bound (data_arrives d ∷ events) ids from s b c =
    Covers-mono bound (arrived events ++ (d.package_id ∷ ids))
      (d.package_id ∷ (arrived events ++ ids)) (max (given_up events) from)
      (max (given_up events) from) (run (handle_data s d) events)
      (λ k e. ground (
        arith,
        e,
        elem-append k (arrived events) (d.package_id ∷ ids),
        elem-append k (arrived events) ids,
      ))
      (omega arith)
      (run-Covers bound events (d.package_id ∷ ids) from (handle_data s d) b.1
        (data-Covers bound ids from s d b.0 c))
run-Covers bound (ack_arrives a ∷ events) ids from s b c =
    Covers-mono bound (arrived events ++ ids) (arrived events ++ ids)
      (max (given_up events) (max a.send_from from)) (max (max a.send_from (given_up events)) from)
      (run (handle_ack s a) events) (λ k e. e) (omega arith)
      (run-Covers bound events ids (max a.send_from from) (handle_ack s a) b.1
        (ack-Covers bound ids from s a b.0 c))
run-Covers bound (package_taken fuel ∷ events) ids from s b c =
    run-Covers bound events ids from (after_take s (take_package fuel s)) b.1
      (take-Covers bound ids from fuel s c)

pub init-Covers :
    (memory : Memory) (crypto : SharpCrypto) (capacity bound : ℕ) (running : Bool)
    → 0 < capacity
    → bound + capacity + 1 < 2 ^ 64
    → Covers bound [] 0 (init memory crypto capacity running)
unfolding init PackageMap.init PackageMap.find
init-Covers memory crypto capacity bound running h r = record {
  slots = h;
  room = r;
  below = omega arith;
  stored = λ k nz e. ground (arith, e);
  covered = λ k nz e. absurd (nz (omega (arith, e)));
}

-- After any history of a new socket, whose ids leave room for the capacity below 2 ^ 64, every id
-- up to `recv_ack_id`, which is acknowledged as received, did arrive in a `Data` package or is no
-- higher than a `send_from` that the other end sent.
pub recv_ack_id_covered :
    (memory : Memory) (crypto : SharpCrypto) (capacity bound : ℕ) (running : Bool)
    (events : List Event) (k : ℕ)
    → 0 < capacity
    → bound + capacity + 1 < 2 ^ 64
    → All (Bounded bound) events
    → 0 < k
    → k ≤ (run (init memory crypto capacity running) events).recv_ack_id
    → (elem k (arrived events) || leb k (given_up events)) ≡ true
recv_ack_id_covered memory crypto capacity bound running events k h r b p e =
    let done =
      run-Covers bound events [] 0 (init memory crypto capacity running) b
        (init-Covers memory crypto capacity bound running h r) in
    ground (arith, done.covered k (omega arith) e, elem-append k (arrived events) [])
