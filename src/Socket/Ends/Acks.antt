-- ===== src/Socket/Ends/Acks.antt =====
-- What the `Ack` packages of a tick say, and what becomes of the queue that they are taken from.
use sharpvpn.Base.{
  ℕ, zero, suc, ◌≤◌, ◌<◌, ◌≡◌, ◌≢◌, refl, sym, ap, ◌∙◌, ltb, leb, List, [], ◌∷◌, true, ◌||◌, ◌&&◌,
  elem, elem-append, keep, arith, inl, inr,
}
use sharpvpn.NetStruct.Ring
use sharpvpn.NetStruct.Ring.{contents}
use sharpvpn.NetStruct.Ring.Contents.{push-IsValid, contents-push, rebase-IsValid}
use sharpvpn.Package.{DataPackage, AckPackage}
use sharpvpn.Package.AckQueue
use sharpvpn.Package.AckQueue.{AckQueue}
use sharpvpn.Socket.State.{Socket}
use sharpvpn.Socket.Receiver.{
  handle_data, handle_ack, take_package, after_take, store_data, raise_recv_ack_id,
  raise_send_ack_id, fast_resend,
}
use sharpvpn.Socket.Receiver.Take.{
  Round-of, found, closing, passing, waiting, take-found, take-closed, take-passes, take-waits,
  once_passed,
}
use sharpvpn.Socket.Sender.{ack_tick, ack_packages}
use sharpvpn.Socket.Sender.AckTick.{acks_of, ack_tick_lem}
use sharpvpn.Socket.Ends.{Sent}

-- The id is one that arrived, or that was given up.
abbrev pub Settled : List ℕ → ℕ → ℕ → Type 0
Settled ids given k = (elem k ids || leb k given) ≡ true

-- All that a package acknowledges is settled.
abbrev pub SoundAck : List ℕ → ℕ → AckPackage → Type 0
SoundAck ids given a =
    (k : ℕ) → k ≢ 0 → (elem k a.ack_list || leb k a.una) ≡ true → Settled ids given k

-- A valid queue of ids that arrived.
pub record SoundQueue (ids : List ℕ) (q : AckQueue) : Type 0 where
  pub valid : Ring.IsValid q
  pub held : (k : ℕ) → elem k (contents q) ≡ true → elem k ids ≡ true

elem-keep : (bound k : ℕ) (xs : List ℕ) → elem k (keep (ltb bound) xs) ≡ (elem k xs && ltb bound k)
elem-keep bound k [] = refl
elem-keep bound k (x ∷ xs) = ground (arith, elem-keep bound k xs)

elem-acks_of :
    (a : AckPackage) (acks : List AckPackage) (k : ℕ)
    → Sent a acks
    → elem k a.ack_list ≡ true
    → elem k (acks_of acks) ≡ true
elem-acks_of a [] k s e = absurd s
elem-acks_of a (b ∷ acks) k (inl p) e =
    ground (arith, elem-append k b.ack_list (acks_of acks), rw p at e)
elem-acks_of a (b ∷ acks) k (inr s) e =
    ground (arith, elem-append k b.ack_list (acks_of acks), elem-acks_of a acks k s e)

una-ack_packages :
    (una from : ℕ → ℕ) (bound round : ℕ) (rounds : List (List ℕ)) (a : AckPackage)
    → ((i : ℕ) → una i ≤ bound)
    → Sent a (ack_packages una from round rounds)
    → a.una ≤ bound
unfolding ack_packages
una-ack_packages una from bound round [] a h s = absurd s
una-ack_packages una from bound round (ids ∷ rounds) a h (inl p) =
    omega (arith, ap (λ b. b.una) p, h round)
una-ack_packages una from bound round (ids ∷ rounds) a h (inr s) =
    una-ack_packages una from bound (suc round) rounds a h s

-- The packages of a tick are sound, where the queue is and all ids up to `recv_ack_id` are settled.
pub ack_tick-SoundAck :
    (una from : ℕ → ℕ) (bound : ℕ) (ids : List ℕ) (given : ℕ) (s : Socket) (a : AckPackage)
    → SoundQueue ids s.ack_send_queue
    → ((i : ℕ) → una i ≤ bound)
    → ((k : ℕ) → k ≢ 0 → k ≤ bound → Settled ids given k)
    → Sent a (ack_tick una from s).0
    → SoundAck ids given a
ack_tick-SoundAck una from bound ids given s a q h c sent k nz e =
    let low : a.una ≤ bound =
      unfold ack_tick in una-ack_packages una from bound 0 _ a h (unfold ack_tick in sent) in
    let same = (ack_tick_lem una from bound s q.valid h).0 in
    let all = acks_of (ack_tick una from s).0 in
    ground (
      arith,
      e,
      nz,
      low,
      c k nz,
      q.held k,
      elem-acks_of a (ack_tick una from s).0 k sent,
      sym (elem-keep bound k all)
          ∙ ap (elem k) same
          ∙ elem-keep bound k (contents s.ack_send_queue),
    )

-- Only a `Data` package changes the queue.
pub queue-handle_data :
    (s : Socket) (d : DataPackage)
    → (handle_data s d).ack_send_queue ≡ Ring.push s.ack_send_queue d.package_id
unfolding handle_data store_data raise_recv_ack_id raise_send_ack_id AckQueue.push
queue-handle_data s d = ground arith

pub queue-handle_ack :
    (s : Socket) (a : AckPackage) → (handle_ack s a).ack_send_queue ≡ s.ack_send_queue
unfolding handle_ack raise_send_ack_id fast_resend
queue-handle_ack s a = ground arith

pub queue-take_package :
    (fuel : ℕ) (s b : Socket)
    → s.ack_send_queue ≡ b.ack_send_queue
    → (after_take b (take_package fuel s)).ack_send_queue ≡ b.ack_send_queue
queue-take_package zero s b h = unfold take_package in refl
queue-take_package (suc fuel) s b h = elim (Round-of s) [
  | found d e ↦ rw (take-found fuel s d e) h
  | closing e w ↦ rw (take-closed fuel s e w) h
  | waiting e w l ↦ rw (take-waits fuel s e w l) h
  | passing e w l ↦ rw (take-passes fuel s e w l) (queue-take_package fuel (once_passed fuel s) b h)
]

pub push-SoundQueue :
    (ids : List ℕ) (q : AckQueue) (id : ℕ)
    → q.len < q.capacity
    → SoundQueue ids q
    → SoundQueue (id ∷ ids) (Ring.push q id)
push-SoundQueue ids q id room s = record {
  valid = push-IsValid q id s.valid room;
  held = λ k e. ground (
    arith,
    s.held k,
    rw (contents-push q id s.valid room) at e,
    elem-append k (contents q) (id ∷ []),
  );
}

pub rebase-SoundQueue :
    (ids : List ℕ) (q : AckQueue) → SoundQueue ids q → SoundQueue ids (AckQueue.rebase q)
unfolding AckQueue.rebase
rebase-SoundQueue ids q s = record {
  valid = rebase-IsValid q s.valid;
  held = λ k e.
      let none_left : contents (Ring.rebase q) ≡ [] = unfold Ring.rebase in refl in
      ground (arith, e, ap (elem k) none_left);
}

pub cons-SoundQueue :
    (ids : List ℕ) (q : AckQueue) (id : ℕ) → SoundQueue ids q → SoundQueue (id ∷ ids) q
cons-SoundQueue ids q id s = record { valid = s.valid; held = λ k e. ground (arith, s.held k e) }
