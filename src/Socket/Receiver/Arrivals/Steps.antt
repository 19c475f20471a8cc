-- ===== src/Socket/Receiver/Arrivals/Steps.antt =====
-- Each step of a history keeps what is known of the packages that arrived.
use sharpvpn.Base.{
  ℕ, zero, suc, ◌+◌, ◌^◌, ◌≤◌, ◌<◌, ◌≡◌, ◌≢◌, refl, ltb, leb, if◌then◌else◌, List, ◌∷◌, true, ◌||◌,
  advance_found, elem, arith, max, inl, inr, ◌⊎◌,
}
use native.Mathlib.Decide.{dec_lt}
use sharpvpn.NetStruct.PackageMap
use sharpvpn.NetStruct.PackageMap.Laws.{find-set, find-erase, capacity-set, capacity-erase}
use sharpvpn.Package.{DataPackage, AckPackage}
use sharpvpn.Socket.State.{Socket}
use sharpvpn.Socket.Receiver.Take.{
  Round-of, found, closing, passing, waiting, take-found, take-closed, take-passes, take-waits,
  once_passed,
}
use sharpvpn.Socket.Receiver.{
  handle_data, handle_ack, store_data, raise_recv_ack_id, raise_send_ack_id, fast_resend,
  take_package, after_take, has_arrived, through_int,
}

-- What holds of a socket on which the packages `ids` arrived, and `from` was given up, while no id
-- went beyond `bound`.
pub record Covers (bound : ℕ) (ids : List ℕ) (from : ℕ) (s : Socket) : Type 0 where
  pub slots : 0 < s.recv_pool.capacity
  pub room : bound + s.recv_pool.capacity + 1 < 2 ^ 64
  pub below : s.recv_ack_id ≤ bound
  pub stored : (k : ℕ) → k ≢ 0 → has_arrived s k ≡ true → (elem k ids ≡ true) × (k ≤ bound)
  pub covered : (k : ℕ) → k ≢ 0 → k ≤ s.recv_ack_id → (elem k ids || leb k from) ≡ true

raise-stored :
    (bound : ℕ) (ids : List ℕ) (from : ℕ) (s : Socket) (k : ℕ)
    → Covers bound ids from s
    → s.recv_ack_id < k
    → k ≤ (raise_recv_ack_id s).recv_ack_id
    → (elem k ids ≡ true) × (k ≤ bound)
unfolding raise_recv_ack_id
raise-stored bound ids from s k c lo hi = c.stored k (omega (arith, lo)) (
    advance_found (has_arrived s) s.recv_pool.capacity s.recv_ack_id k
      (omega (arith, c.room, c.below)) lo hi)

raise-Covers :
    (bound : ℕ) (ids : List ℕ) (from : ℕ) (s : Socket)
    → Covers bound ids from s
    → Covers bound ids from (raise_recv_ack_id s)
raise-Covers bound ids from s c =
    let y = (raise_recv_ack_id s).recv_ack_id in
    record {
      slots = unfold raise_recv_ack_id in c.slots;
      room = unfold raise_recv_ack_id in c.room;
      below = elim (dec_lt s.recv_ack_id y) [
        | yes p ↦ (raise-stored bound ids from s y c p (omega arith)).1
        | no p ↦ omega (arith, c.below)
      ];
      stored = unfold raise_recv_ack_id in c.stored;
      covered = λ k nz h. elim (dec_lt s.recv_ack_id k) [
        | yes p ↦ rw ((raise-stored bound ids from s k c p h).0)
        | no p ↦ c.covered k nz (omega arith)
      ];
    }

store-stored :
    (bound : ℕ) (ids : List ℕ) (from : ℕ) (s : Socket) (d : DataPackage) (k : ℕ)
    → d.package_id ≤ bound
    → Covers bound ids from s
    → k ≢ 0
    → has_arrived (store_data s d) k ≡ true
    → (elem k (d.package_id ∷ ids) ≡ true) × (k ≤ bound)
unfolding store_data
store-stored bound ids from s d k h c nz e =
    ground (arith, find-set s.recv_pool d.package_id k d, c.stored k nz)

store-Covers :
    (bound : ℕ) (ids : List ℕ) (from : ℕ) (s : Socket) (d : DataPackage)
    → d.package_id ≤ bound
    → Covers bound ids from s
    → Covers bound (d.package_id ∷ ids) from (store_data s d)
store-Covers bound ids from s d h c = record {
  slots = unfold store_data in ground (arith, c.slots, capacity-set s.recv_pool d.package_id d);
  room = unfold store_data in ground (arith, c.room, capacity-set s.recv_pool d.package_id d);
  below = unfold store_data in ground (arith, c.below);
  stored = λ k nz e. store-stored bound ids from s d k h c nz e;
  covered = λ k nz e. unfold store_data in ground (arith, c.covered k nz);
}

pub data-Covers :
    (bound : ℕ) (ids : List ℕ) (from : ℕ) (s : Socket) (d : DataPackage)
    → d.package_id ≤ bound
    → Covers bound ids from s
    → Covers bound (d.package_id ∷ ids) from (handle_data s d)
data-Covers bound ids from s d h c =
    let done =
      raise-Covers bound (d.package_id ∷ ids) from (store_data s d)
        (store-Covers bound ids from s d h c) in
    unfold handle_data raise_send_ack_id in
    record {
      slots = done.slots;
      room = done.room;
      below = done.below;
      stored = done.stored;
      covered = done.covered;
    }

-- An `Ack` package leaves the packages that arrived alone, and may raise `recv_ack_id` to what it
-- says was given up.
pub handle_ack_frame :
    (s : Socket) (a : AckPackage)
    → ((handle_ack s a).recv_pool ≡ s.recv_pool)
      × ((handle_ack s a).recv_ack_id
          ≡ (if ltb s.recv_ack_id a.send_from then a.send_from else s.recv_ack_id))
unfolding handle_ack fast_resend raise_send_ack_id
handle_ack_frame s a = ground arith

pub ack-Covers :
    (bound : ℕ) (ids : List ℕ) (from : ℕ) (s : Socket) (a : AckPackage)
    → a.send_from ≤ bound
    → Covers bound ids from s
    → Covers bound ids (max a.send_from from) (handle_ack s a)
ack-Covers bound ids from s a h c =
    let frame = handle_ack_frame s a in
    record {
      slots = rw (frame.0) c.slots;
      room = rw (frame.0) c.room;
      below = ground (arith, frame.1, c.below);
      stored = rw (frame.0) c.stored;
      covered = λ k nz e. ground (arith, frame.1, c.covered k nz);
    }

-- Taking a package erases at most one entry, and leaves `recv_ack_id`.
record TakeFrame (s t : Socket) : Type 0 where
  ack : t.recv_ack_id ≡ s.recv_ack_id
  pool : (t.recv_pool ≡ s.recv_pool) ⊎ ((k : ℕ) × (t.recv_pool ≡ PackageMap.erase s.recv_pool k))

take-frame :
    (fuel : ℕ) (s b : Socket) → TakeFrame s b → TakeFrame s (after_take b (take_package fuel s))
take-frame zero s b f = unfold take_package in f
take-frame (suc fuel) s b f = elim (Round-of s) [
  | found d e ↦
      rw (take-found fuel s d e) (record { ack = refl; pool = inr (through_int s.recv_id, refl) })
  | closing e w ↦ rw (take-closed fuel s e w) (record { ack = refl; pool = inl refl })
  | waiting e w h ↦ rw (take-waits fuel s e w h) (record { ack = refl; pool = inl refl })
  | passing e w h ↦ rw (take-passes fuel s e w h) (
      let rest = take-frame fuel (once_passed fuel s) b (record { ack = f.ack; pool = f.pool }) in
      record { ack = rest.ack; pool = rest.pool })
]

erase-Covers :
    (bound : ℕ) (ids : List ℕ) (from k : ℕ) (s : Socket)
    → Covers bound ids from s
    → Covers bound ids from (record s { recv_pool = PackageMap.erase s.recv_pool k })
erase-Covers bound ids from k s c = record {
  slots = ground (arith, c.slots, capacity-erase s.recv_pool k);
  room = ground (arith, c.room, capacity-erase s.recv_pool k);
  below = c.below;
  stored = λ i nz e. c.stored i nz (ground (arith, find-erase s.recv_pool k i nz, e));
  covered = c.covered;
}

frame-Covers :
    (bound : ℕ) (ids : List ℕ) (from : ℕ) (s t : Socket)
    → t.recv_pool ≡ s.recv_pool
    → t.recv_ack_id ≡ s.recv_ack_id
    → Covers bound ids from s
    → Covers bound ids from t
frame-Covers bound ids from s t p a c = record {
  slots = rw p c.slots;
  room = rw p c.room;
  below = rw a c.below;
  stored = rw p c.stored;
  covered = rw a c.covered;
}

pub take-Covers :
    (bound : ℕ) (ids : List ℕ) (from fuel : ℕ) (s : Socket)
    → Covers bound ids from s
    → Covers bound ids from (after_take s (take_package fuel s))
take-Covers bound ids from fuel s c =
    let t = after_take s (take_package fuel s) in
    let f = take-frame fuel s s (record { ack = refl; pool = inl refl }) in
    elim f.pool [
      | inl p ↦ frame-Covers bound ids from s t p f.ack c
      | inr (k, p) ↦
          frame-Covers bound ids from (record s { recv_pool = PackageMap.erase s.recv_pool k }) t p
            f.ack (erase-Covers bound ids from k s c)
    ]
