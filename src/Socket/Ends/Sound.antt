-- ===== src/Socket/Ends/Sound.antt =====
-- What one end takes for acknowledged did arrive at the other end, or was given up.
use sharpvpn.Base.{
  ℕ, ◌+◌, ◌^◌, ◌≤◌, ◌<◌, ◌≡◌, ◌≢◌, refl, ap, leb, List, [], ◌++◌, true, ◌||◌, elem, elem-append,
  max, arith,
}
use sharpvpn.Crypto.{SharpCrypto}
use sharpvpn.NetStruct.Ring
use sharpvpn.NetStruct.Ring.{contents}
use sharpvpn.NetStruct.Ring.Contents.{init-IsValid}
use sharpvpn.Package.{DataPackage, AckPackage}
use sharpvpn.Socket.State.{Socket, Memory, init}
use sharpvpn.Socket.Receiver.{handle_data, handle_ack, take_package, after_take}
use sharpvpn.Socket.Receiver.Arrivals.Covered.{init-Covers}
use sharpvpn.Socket.Receiver.Acks.Covered.{init-Acked}
use sharpvpn.Socket.Receiver.Acks.Steps.{data-Acked, ack-Acked, take-Acked}
use sharpvpn.Socket.Ends.{
  Ends, Reachable, begin, data_to_receiver, ack_to_receiver, receiver_takes, copies, sends_acks,
  stamps, ack_to_sender, data_to_sender, sender_takes, gives_ids, new_ends,
}
use sharpvpn.Socket.Ends.Acks.{Settled, SoundAck, SoundQueue}
use sharpvpn.Socket.Ends.Invariant.{
  SoundEnd, Sound, receive-Sound, give_up-Sound, take-Sound, copy-Sound, send-Sound, stamp-Sound,
}

with_end :
    (bound : ℕ) (e : Ends) (x : Socket)
    → Sound bound e
    → SoundEnd bound e.arrived e.given_up x
    → Sound bound (record e { sender = x })
with_end bound e x s end = record {
  covers = s.covers;
  queue = s.queue;
  copied_queue = s.copied_queue;
  acks = s.acks;
  unas = s.unas;
  end = end;
}

hear-SoundEnd :
    (bound : ℕ) (ids : List ℕ) (given : ℕ) (x : Socket) (a : AckPackage)
    → SoundAck ids given a
    → SoundEnd bound ids given x
    → SoundEnd bound ids given (handle_ack x a)
hear-SoundEnd bound ids given x a h s = record {
  listed = a.ack_list ++ s.listed;
  una = max a.una s.una;
  acked = ack-Acked bound s.listed s.una x a s.acked;
  sound = λ k nz p. ground (arith, p, nz, elem-append k a.ack_list s.listed, h k nz, s.sound k nz);
}

hear_data-SoundEnd :
    (bound : ℕ) (ids : List ℕ) (given : ℕ) (x : Socket) (d : DataPackage)
    → d.una ≤ bound
    → ((k : ℕ) → k ≢ 0 → k ≤ d.una → Settled ids given k)
    → SoundEnd bound ids given x
    → SoundEnd bound ids given (handle_data x d)
hear_data-SoundEnd bound ids given x d b h s = record {
  listed = s.listed;
  una = max d.una s.una;
  acked = data-Acked bound s.listed s.una x d b s.acked;
  sound = λ k nz p. ground (arith, p, nz, h k nz, s.sound k nz);
}

take-SoundEnd :
    (bound : ℕ) (ids : List ℕ) (given : ℕ) (x : Socket) (fuel : ℕ)
    → SoundEnd bound ids given x
    → SoundEnd bound ids given (after_take x (take_package fuel x))
take-SoundEnd bound ids given x fuel s = record {
  listed = s.listed;
  una = s.una;
  acked = take-Acked bound s.listed s.una fuel x x s.acked s.acked;
  sound = s.sound;
}

give-SoundEnd :
    (bound : ℕ) (ids : List ℕ) (given : ℕ) (x : Socket) (id : ℕ)
    → id ≤ bound
    → SoundEnd bound ids given x
    → SoundEnd bound ids given (record x { send_id = id })
give-SoundEnd bound ids given x id h s = record {
  listed = s.listed;
  una = s.una;
  acked = record {
    slots = s.acked.slots;
    room = s.acked.room;
    sent = h;
    below = s.acked.below;
    noted = s.acked.noted;
    covered = s.acked.covered;
  };
  sound = s.sound;
}

history-Sound :
    (bound : ℕ) (start e : Ends) → Sound bound start → Reachable bound start e → Sound bound e
history-Sound bound start e s begin = s
history-Sound bound start _ s (data_to_receiver {e} d r h room) =
    receive-Sound bound e d h room (history-Sound bound start e s r)
history-Sound bound start _ s (ack_to_receiver {e} a r h) =
    give_up-Sound bound e a h (history-Sound bound start e s r)
history-Sound bound start _ s (receiver_takes {e} fuel r) =
    take-Sound bound e fuel (history-Sound bound start e s r)
history-Sound bound start _ s (copies {e} r) = copy-Sound bound e (history-Sound bound start e s r)
history-Sound bound start _ s (sends_acks {e} una from r h) =
    send-Sound bound e una from h (history-Sound bound start e s r)
history-Sound bound start _ s (stamps {e} r) = stamp-Sound bound e (history-Sound bound start e s r)
history-Sound bound start _ s (ack_to_sender {e} a r m) =
    let now = history-Sound bound start e s r in
    with_end bound e (handle_ack e.sender a) now
      (hear-SoundEnd bound e.arrived e.given_up e.sender a (now.acks a m) now.end)
history-Sound bound start _ s (data_to_sender {e} d r m) =
    let now = history-Sound bound start e s r in
    let u = now.unas d.una m in
    with_end bound e (handle_data e.sender d) now
      (hear_data-SoundEnd bound e.arrived e.given_up e.sender d u.0 u.1 now.end)
history-Sound bound start _ s (sender_takes {e} fuel r) =
    let now = history-Sound bound start e s r in
    with_end bound e (after_take e.sender (take_package fuel e.sender)) now
      (take-SoundEnd bound e.arrived e.given_up e.sender fuel now.end)
history-Sound bound start _ s (gives_ids {e} id r h) =
    let now = history-Sound bound start e s r in
    with_end bound e (record (e.sender) { send_id = id }) now
      (give-SoundEnd bound e.arrived e.given_up e.sender id h now.end)

new-SoundQueue :
    (memory : ℕ → ℕ) (capacity : ℕ) → 0 < capacity → SoundQueue [] (Ring.init memory capacity)
new-SoundQueue memory capacity h = record {
  valid = init-IsValid memory capacity h;
  held = λ k e.
      let nothing : contents (Ring.init memory capacity) ≡ [] = unfold Ring.init in refl in
      ground (arith, e, ap (elem k) nothing);
}

-- Before anything has happened.
new-Sound :
    (memory memory' : Memory) (crypto crypto' : SharpCrypto) (capacity bound : ℕ)
    → ((i : ℕ) → memory'.acked_ids i ≡ 0)
    → 0 < capacity
    → 0 < bound
    → bound + capacity + 1 < 2 ^ 64
    → Sound bound (new_ends memory memory' crypto crypto' capacity)
unfolding init
new-Sound memory memory' crypto crypto' capacity bound z h b r = record {
  covers = init-Covers memory crypto capacity bound true h r;
  queue = new-SoundQueue memory.ack_ids capacity h;
  copied_queue = new-SoundQueue memory.ack_ids capacity h;
  acks = λ a m. absurd m;
  unas = λ u m. ground (arith, m);
  end = record {
    listed = [];
    una = 0;
    acked = init-Acked memory' crypto' capacity bound 1 true z h r (omega (arith, b));
    sound = λ k nz p. ground (arith, p, nz);
  };
}

-- In any history of two new sockets and the network between them, where the memory of the sender's
-- `acked_ids` was cleared, ids and `send_from` stay within a bound that leaves room below 2 ^ 64, and
-- the receiver's queue of acknowledgements never overflows: every id up to the `send_ack_id` of the
-- one end, all of which it takes for acknowledged, arrived at the other end or is no higher than a
-- `send_from` that arrived there.
pub send_ack_id_arrived :
    (memory memory' : Memory) (crypto crypto' : SharpCrypto) (capacity bound : ℕ) (e : Ends) (k : ℕ)
    → ((i : ℕ) → memory'.acked_ids i ≡ 0)
    → 0 < capacity
    → 0 < bound
    → bound + capacity + 1 < 2 ^ 64
    → Reachable bound (new_ends memory memory' crypto crypto' capacity) e
    → 0 < k
    → k ≤ e.sender.send_ack_id
    → (elem k e.arrived || leb k e.given_up) ≡ true
send_ack_id_arrived memory memory' crypto crypto' capacity bound e k z h b r t p l =
    let begun = new-Sound memory memory' crypto crypto' capacity bound z h b r in
    let now = history-Sound bound (new_ends memory memory' crypto crypto' capacity) e begun t in
    now.end.sound k (omega (arith, p)) (now.end.acked.covered k (omega (arith, p)) l)
