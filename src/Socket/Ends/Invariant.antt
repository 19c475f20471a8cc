-- ===== src/Socket/Ends/Invariant.antt =====
-- What holds of both ends in every history, and what the receiver's end does to it.
use sharpvpn.Base.{
  ℕ, ◌≤◌, ◌<◌, ◌≡◌, ◌≢◌, refl, sym, leb, List, [], ◌∷◌, ◌++◌, true, ◌||◌, elem, max, arith, inl,
  inr, ◌⊎◌, Bool-cases,
}
use sharpvpn.Package.{DataPackage, AckPackage}
use sharpvpn.Socket.State.{Socket}
use sharpvpn.Socket.Receiver.{handle_data, handle_ack, take_package, after_take}
use sharpvpn.Socket.Receiver.Arrivals.Steps.{Covers, data-Covers, ack-Covers, take-Covers}
use sharpvpn.Socket.Receiver.Acks.Noting.{Acked}
use sharpvpn.Socket.Sender.{ack_tick}
use sharpvpn.Socket.Ends.{Ends, Sent, rebased}
use sharpvpn.Socket.Ends.Acks.{
  Settled, SoundAck, SoundQueue, ack_tick-SoundAck, queue-handle_data, queue-handle_ack,
  queue-take_package, push-SoundQueue, rebase-SoundQueue, cons-SoundQueue,
}

-- What the sender's end was told: ids in lists, and a `una`.
pub record SoundEnd (bound : ℕ) (ids : List ℕ) (given : ℕ) (s : Socket) : Type 0 where
  pub listed : List ℕ
  pub una : ℕ
  pub acked : Acked bound listed una s
  pub sound : (k : ℕ) → k ≢ 0 → (elem k listed || leb k una) ≡ true → Settled ids given k

-- The invariant of both, with the ids that arrived and what was given up.
pub record Sound (bound : ℕ) (e : Ends) : Type 0 where
  pub covers : Covers bound e.arrived e.given_up e.receiver
  pub queue : SoundQueue e.arrived e.receiver.ack_send_queue
  pub copied_queue : SoundQueue e.arrived e.copied.ack_send_queue
  pub acks : (a : AckPackage) → Sent a e.acks → SoundAck e.arrived e.given_up a
  pub unas :
      (u : ℕ)
      → elem u e.unas ≡ true
      → (u ≤ bound) × ((k : ℕ) → k ≢ 0 → k ≤ u → Settled e.arrived e.given_up k)
  pub end : SoundEnd bound e.arrived e.given_up e.sender

grow : (ids : List ℕ) (given id k : ℕ) → Settled ids given k → Settled (id ∷ ids) given k
grow ids given id k h = ground (arith, h)

raise : (ids : List ℕ) (given from k : ℕ) → Settled ids given k → Settled ids (max from given) k
raise ids given from k h = ground (arith, h)

pub receive-Sound :
    (bound : ℕ) (e : Ends) (d : DataPackage)
    → d.package_id ≤ bound
    → e.receiver.ack_send_queue.len < e.receiver.ack_send_queue.capacity
    → Sound bound e
    → Sound bound
        (record e { receiver = handle_data e.receiver d; arrived = d.package_id ∷ e.arrived })
receive-Sound bound e d h room s =
    let id = d.package_id in
    record {
      covers = data-Covers bound e.arrived e.given_up e.receiver d h s.covers;
      queue =
          rw (queue-handle_data e.receiver d)
            (push-SoundQueue e.arrived e.receiver.ack_send_queue id room s.queue);
      copied_queue = cons-SoundQueue e.arrived e.copied.ack_send_queue id s.copied_queue;
      acks = λ a m k nz p. grow e.arrived e.given_up id k (s.acks a m k nz p);
      unas =
          λ u m. ((s.unas u m).0, λ k nz p. grow e.arrived e.given_up id k ((s.unas u m).1 k nz p));
      end = record {
        listed = s.end.listed;
        una = s.end.una;
        acked = s.end.acked;
        sound = λ k nz p. grow e.arrived e.given_up id k (s.end.sound k nz p);
      };
    }

pub give_up-Sound :
    (bound : ℕ) (e : Ends) (a : AckPackage)
    → a.send_from ≤ bound
    → Sound bound e
    → Sound bound
        (record e { receiver = handle_ack e.receiver a; given_up = max a.send_from e.given_up })
give_up-Sound bound e a h s =
    let from = a.send_from in
    record {
      covers = ack-Covers bound e.arrived e.given_up e.receiver a h s.covers;
      queue = rw (queue-handle_ack e.receiver a) s.queue;
      copied_queue = s.copied_queue;
      acks = λ b m k nz p. raise e.arrived e.given_up from k (s.acks b m k nz p);
      unas = λ u m.
          ((s.unas u m).0, λ k nz p. raise e.arrived e.given_up from k ((s.unas u m).1 k nz p));
      end = record {
        listed = s.end.listed;
        una = s.end.una;
        acked = s.end.acked;
        sound = λ k nz p. raise e.arrived e.given_up from k (s.end.sound k nz p);
      };
    }

pub take-Sound :
    (bound : ℕ) (e : Ends) (fuel : ℕ)
    → Sound bound e
    → Sound bound (record e { receiver = after_take e.receiver (take_package fuel e.receiver) })
take-Sound bound e fuel s = record {
  covers = take-Covers bound e.arrived e.given_up fuel e.receiver s.covers;
  queue = rw (queue-take_package fuel e.receiver e.receiver refl) s.queue;
  copied_queue = s.copied_queue;
  acks = s.acks;
  unas = s.unas;
  end = s.end;
}

pub copy-Sound :
    (bound : ℕ) (e : Ends)
    → Sound bound e
    → Sound bound (record e { copied = e.receiver; receiver = rebased e.receiver })
copy-Sound bound e s = record {
  covers = record {
    slots = s.covers.slots;
    room = s.covers.room;
    below = s.covers.below;
    stored = s.covers.stored;
    covered = s.covers.covered;
  };
  queue = rebase-SoundQueue e.arrived e.receiver.ack_send_queue s.queue;
  copied_queue = s.queue;
  acks = s.acks;
  unas = s.unas;
  end = s.end;
}

Sent-append : (a : AckPackage) (xs ys : List AckPackage) → Sent a (xs ++ ys) → Sent a xs ⊎ Sent a ys
Sent-append a [] ys m = inr m
Sent-append a (x ∷ xs) ys (inl p) = inl (inl p)
Sent-append a (x ∷ xs) ys (inr m) = elim (Sent-append a xs ys m) [
  | inl n ↦ inl (inr n)
  | inr n ↦ inr n
]

pub send-Sound :
    (bound : ℕ) (e : Ends) (una from : ℕ → ℕ)
    → ((i : ℕ) → una i ≤ e.receiver.recv_ack_id)
    → Sound bound e
    → Sound bound (record e { acks = (ack_tick una from e.copied).0 ++ e.acks })
send-Sound bound e una from h s = record {
  covers = s.covers;
  queue = s.queue;
  copied_queue = s.copied_queue;
  acks = λ a m. elim (Sent-append a (ack_tick una from e.copied).0 e.acks m) [
    | inl n ↦
        ack_tick-SoundAck una from e.receiver.recv_ack_id e.arrived e.given_up e.copied a
          s.copied_queue h s.covers.covered n
    | inr n ↦ s.acks a n
  ];
  unas = s.unas;
  end = s.end;
}

pub stamp-Sound :
    (bound : ℕ) (e : Ends)
    → Sound bound e
    → Sound bound (record e { unas = e.receiver.recv_ack_id ∷ e.unas })
stamp-Sound bound e s = record {
  covers = s.covers;
  queue = s.queue;
  copied_queue = s.copied_queue;
  acks = s.acks;
  unas = λ u m. elim (Bool-cases (elem u e.unas)) [
    | inl old ↦ s.unas u old
    | inr new ↦
        let same : e.receiver.recv_ack_id ≡ u = ground (arith, m, new) in
        rw (sym same) (s.covers.below, s.covers.covered)
  ];
  end = s.end;
}
