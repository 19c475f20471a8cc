-- ===== src/Socket/Transfer/Arrival.antt =====
-- `Data` packages that arrive in any order, some of them more than once, are all in the table of
-- the receiver.
use sharpvpn.Base.{
  ℕ, ◌+◌, ◌%◌, ◌^◌, ◌≤◌, ◌<◌, ◌≡◌, refl, sym, ◌∙◌, List, [], ◌∷◌, All, Bool, true, false, ◌||◌,
  elem, some, slot_injective, arith, Bool-cases, inl, inr,
}
use sharpvpn.NetStruct.PackageMap
use sharpvpn.NetStruct.PackageMap.Laws.{find-set, capacity-set}
use sharpvpn.Package.{DataPackage}
use sharpvpn.Crypto.{SharpCrypto}
use sharpvpn.Socket.State.{Socket, Memory, init}
use sharpvpn.Socket.Receiver.Arrivals.Covered.{init-Covers}
use sharpvpn.Socket.Receiver.{handle_data, store_data, raise_recv_ack_id, raise_send_ack_id}
use sharpvpn.Socket.Receiver.Arrivals.Steps.{Covers, data-Covers}

-- A sending of the package `id` of a stream: its number, and what the sender had received then.
pub record Sending : Type 0 where
  pub id : ℕ
  pub una : ℕ

-- The package that a sending carries, of a stream whose packages hold `content`.
abbrev pub package_of : (ℕ → List ℕ) → Sending → DataPackage
package_of content a = record { package_id = a.id; una = a.una; bytes = content a.id }

-- The socket after the sendings have arrived, in this order.
unfoldable pub arrive : (ℕ → List ℕ) → Socket → List Sending → Socket
arrive content s [] = s
arrive content s (a ∷ sendings) = arrive content (handle_data s (package_of content a)) sendings

abbrev pub ids_of : List Sending → List ℕ
ids_of [] = []
ids_of (a ∷ sendings) = a.id ∷ ids_of sendings

module _ (content : ℕ → List ℕ) (n : ℕ) where
  -- Every package that arrived is in the table.
  pub record Keeps (ids : List ℕ) (s : Socket) : Type 0 where
    pub covers : Covers n ids 0 s
    pub fits : n ≤ s.recv_pool.capacity
    pub range : (k : ℕ) → elem k ids ≡ true → (1 ≤ k) × (k ≤ n)
    pub stored :
        (k : ℕ)
        → elem k ids ≡ true
        → (una : ℕ) × (PackageMap.find s.recv_pool k
            ≡ some (package_of content (record { id = k; una = una })))

  recv_pool-handle_data :
      (s : Socket) (d : DataPackage) → (handle_data s d).recv_pool ≡ (store_data s d).recv_pool
  unfolding handle_data raise_recv_ack_id raise_send_ack_id
  recv_pool-handle_data s d = refl

  abbrev pub InRange : Sending → Type 0
  InRange a = (1 ≤ a.id) × (a.id ≤ n)

  -- Two ids of the range that share a slot are the same.
  same_slot :
      (s : Socket) (ids : List ℕ) (j k : ℕ)
      → Keeps ids s
      → 1 ≤ j
      → j ≤ n
      → 1 ≤ k
      → k ≤ n
      → j % s.recv_pool.capacity ≡ k % s.recv_pool.capacity
      → j ≡ k
  same_slot s ids j k h j1 jn k1 kn e =
      slot_injective s.recv_pool.capacity 1 j k j1 (omega (arith, jn, h.fits)) k1
        (omega (arith, kn, h.fits)) e

  store-old :
      (ids : List ℕ) (s : Socket) (a : Sending) (k : ℕ) (d : DataPackage)
      → InRange a
      → Keeps ids s
      → elem k ids ≡ true
      → PackageMap.find s.recv_pool k ≡ some d
      → PackageMap.find (store_data s (package_of content a)).recv_pool k ≡ some d
  unfolding store_data
  store-old ids s a k d r h e f = ground (
    arith,
    f,
    find-set s.recv_pool a.id k (package_of content a),
    same_slot s ids a.id k h r.0 r.1 (h.range k e).0 (h.range k e).1,
  )

  store-new :
      (ids : List ℕ) (s : Socket) (a : Sending)
      → InRange a
      → Keeps ids s
      → elem a.id ids ≡ false
      → PackageMap.find (store_data s (package_of content a)).recv_pool a.id
        ≡ some (package_of content a)
  unfolding store_data
  store-new ids s a r h e = ground (
    arith,
    r.0,
    e,
    h.covers.stored a.id,
    h.covers.covered a.id,
    find-set s.recv_pool a.id a.id (package_of content a),
  )

  store-stored :
      (ids : List ℕ) (s : Socket) (a : Sending)
      → InRange a
      → Keeps ids s
      → (k : ℕ) → elem k (a.id ∷ ids) ≡ true
      → (una : ℕ) × (PackageMap.find (store_data s (package_of content a)).recv_pool k
          ≡ some (package_of content (record { id = k; una = una })))
  store-stored ids s a r h k e = elim (Bool-cases (elem k ids)) [
    | inl old ↦ let (una, f) = h.stored k old in (una, store-old ids s a k _ r h old f)
    | inr new ↦
        let same : a.id ≡ k = ground (arith, e, new) in
        (a.una, rw (sym same) (store-new ids s a r h (rw (sym same) at new)))
  ]

  data-Keeps :
      (ids : List ℕ) (s : Socket) (a : Sending)
      → InRange a
      → Keeps ids s
      → Keeps (a.id ∷ ids) (handle_data s (package_of content a))
  data-Keeps ids s a r h = record {
    covers = data-Covers n ids 0 s (package_of content a) r.1 h.covers;
    fits = rw (recv_pool-handle_data s (package_of content a)) (
        unfold store_data in
        ground (arith, h.fits, capacity-set s.recv_pool a.id (package_of content a)));
    range = λ k e. ground (arith, e, r, h.range k);
    stored = rw (recv_pool-handle_data s (package_of content a)) (store-stored ids s a r h);
  }

  -- Each sending of a stream of at most as many packages as the table holds leaves all that arrived
  -- in the table, whatever the order and however often a package comes.
  pub arrive-Keeps :
      (sendings : List Sending) (ids : List ℕ) (s : Socket)
      → All InRange sendings
      → Keeps ids s
      → (k : ℕ) → (elem k ids || elem k (ids_of sendings)) ≡ true
      → (una : ℕ) × (PackageMap.find (arrive content s sendings).recv_pool k
          ≡ some (package_of content (record { id = k; una = una })))
  unfolding arrive
  arrive-Keeps [] ids s r h k e = h.stored k (ground (arith, e))
  arrive-Keeps (a ∷ sendings) ids s r h k e =
      arrive-Keeps sendings (a.id ∷ ids) (handle_data s (package_of content a)) r.1
        (data-Keeps ids s a r.0 h) k (ground (arith, e))

  -- Before anything has arrived.
  pub init-Keeps :
      (memory : Memory) (crypto : SharpCrypto) (capacity : ℕ) (running : Bool)
      → 0 < capacity
      → n ≤ capacity
      → n + capacity + 1 < 2 ^ 64
      → Keeps [] (init memory crypto capacity running)
  init-Keeps memory crypto capacity running h f r = record {
    covers = init-Covers memory crypto capacity n running h r;
    fits = unfold init in unfold PackageMap.init in f;
    range = λ k e. ground (arith, e);
    stored = λ k e. ground (arith, e);
  }

-- What arrives does not touch the reading side.
pub recv_id-arrive :
    (content : ℕ → List ℕ) (sendings : List Sending) (s : Socket)
    → (arrive content s sendings).recv_id ≡ s.recv_id
unfolding arrive handle_data store_data raise_recv_ack_id raise_send_ack_id
recv_id-arrive content [] s = refl
recv_id-arrive content (a ∷ sendings) s =
    recv_id-arrive content sendings (handle_data s (package_of content a)) ∙ ground arith

pub segment_recv-arrive :
    (content : ℕ → List ℕ) (sendings : List Sending) (s : Socket)
    → (arrive content s sendings).segment_recv ≡ s.segment_recv
unfolding arrive handle_data store_data raise_recv_ack_id raise_send_ack_id
segment_recv-arrive content [] s = refl
segment_recv-arrive content (a ∷ sendings) s =
    segment_recv-arrive content sendings (handle_data s (package_of content a)) ∙ ground arith
