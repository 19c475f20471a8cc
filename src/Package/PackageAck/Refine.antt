-- ===== src/Package/PackageAck/Refine.antt =====
-- The loops over the cyclic buffer do what `take_acks` does to the list that it holds.
use sharpvpn.Base.{
  keep-append, ℕ, zero, suc, ◌+◌, ◌-◌, ◌%◌, ◌≤◌, ◌<◌, ◌≡◌, refl, sym, ap, ap₂, ◌∙◌, ltb, leb,
  if◌then◌else◌, List, [], ◌∷◌, ◌++◌, true, false, arith, length, keep, flatten, All, Bool-cases,
  inl, inr, leb_zero_false→lt, length-window,
}
use sharpvpn.NetStruct.Ring
use sharpvpn.NetStruct.Ring.{Ring, contents}
use sharpvpn.NetStruct.Ring.Contents.{contents-empty, contents-cons, advance-IsValid}
use sharpvpn.Package.AckQueue
use sharpvpn.Package.AckQueue.{AckQueue}
use sharpvpn.Package.PackageAck.{load_ids, load, ack_rounds}
use sharpvpn.Package.PackageAck.Batches.{
  take_acks, length-take_acks, take_acks_shorter, keep-take_acks,
}

-- The queue without its oldest id.
abbrev advanced : AckQueue → AckQueue
advanced q = record q { start = (q.start + 1) % q.capacity; len = q.len - 1 }

pop_some : (q : AckQueue) → leb q.len 0 ≡ false → AckQueue.pop q ≡ (q.arr q.start, advanced q)
unfolding AckQueue.pop Ring.pop
pop_some q h = rw h

-- What `load` promises of its result, for the ids that the queue held.
pub record Loads (xs : List ℕ) (room una : ℕ) (r : List ℕ × AckQueue) : Type 0 where
  pub ids : r.0 ≡ (take_acks room una xs).0
  pub rest : contents r.1 ≡ (take_acks room una xs).1
  pub valid : Ring.IsValid r.1

load_ids-done :
    (fuel room una : ℕ) (q : AckQueue) → (leb q.len 0 ≡ true) → load_ids fuel room una q ≡ ([], q)
unfolding load_ids AckQueue.size Ring.size
load_ids-done zero room una q h = refl
load_ids-done (suc fuel) room una q h = elim (Bool-cases (leb room 0)) [
  | inl r ↦ rw (h, r)
  | inr r ↦ rw (h, r)
]

load_ids-full : (fuel una : ℕ) (q : AckQueue) → load_ids fuel 0 una q ≡ ([], q)
unfolding load_ids
load_ids-full zero una q = refl
load_ids-full (suc fuel) una q = refl

load_ids-step :
    (fuel room una : ℕ) (q : AckQueue)
    → leb q.len 0 ≡ false
    → load_ids (suc fuel) (suc room) una q ≡ (
        if ltb una (q.arr q.start)
        then (let kept = load_ids fuel room una (advanced q) in (q.arr q.start ∷ kept.0, kept.1))
        else load_ids fuel (suc room) una (advanced q))
unfolding load_ids AckQueue.size Ring.size AckQueue.pop Ring.pop
load_ids-step fuel room una q h =
    let back : suc room - 1 ≡ room = omega arith in
    let room_left : leb (suc room) 0 ≡ false = ground arith in rw (h, back, room_left)

take_acks-nil : (room una : ℕ) → take_acks room una [] ≡ ([], [])
unfolding take_acks
take_acks-nil zero una = refl
take_acks-nil (suc room) una = refl

empty-Loads :
    (fuel room una : ℕ) (q : AckQueue)
    → Ring.IsValid q
    → leb q.len 0 ≡ true
    → Loads (contents q) room una (load_ids fuel room una q)
empty-Loads fuel room una q v h =
    rw (load_ids-done fuel room una q h, contents-empty q h)
      (record {
        ids = sym (ap (λ r. r.0) (take_acks-nil room una));
        rest = contents-empty q h ∙ sym (ap (λ r. r.1) (take_acks-nil room una));
        valid = v;
      })

-- One round over a queue that is not empty, on the list that it holds.
step-Loads :
    (fuel room una x : ℕ) (xs : List ℕ) (q : AckQueue)
    → Loads xs room una (load_ids fuel room una q)
    → Loads xs (suc room) una (load_ids fuel (suc room) una q)
    → Loads (x ∷ xs) (suc room) una (
        if ltb una x
        then (let kept = load_ids fuel room una q in (x ∷ kept.0, kept.1))
        else load_ids fuel (suc room) una q)
step-Loads fuel room una x xs q k d = elim (Bool-cases (ltb una x)) [
  | inl t ↦ rw t (record {
    ids = unfold take_acks in rw t (ap (◌∷◌ x) k.ids);
    rest = unfold take_acks in rw t k.rest;
    valid = k.valid;
  })
  | inr f ↦ rw f (record {
    ids = unfold take_acks in rw f d.ids;
    rest = unfold take_acks in rw f d.rest;
    valid = d.valid;
  })
]

-- With as many rounds as the queue has ids, the loop ends by its test, with the ids that
-- `take_acks` takes, and leaves the ids that it leaves.
pub load_ids-Loads :
    (fuel room una : ℕ) (q : AckQueue)
    → Ring.IsValid q
    → q.len ≤ fuel
    → Loads (contents q) room una (load_ids fuel room una q)
load_ids-Loads fuel zero una q v h =
    rw (load_ids-full fuel una q)
      (unfold take_acks in record { ids = refl; rest = refl; valid = v })
load_ids-Loads zero (suc room) una q v h = empty-Loads 0 (suc room) una q v (ground (arith, h))
load_ids-Loads (suc fuel) (suc room) una q v h = elim (Bool-cases (leb q.len 0)) [
  | inl e ↦ empty-Loads (suc fuel) (suc room) una q v e
  | inr e ↦
      let next = advance-IsValid q v (leb_zero_false→lt q.len e) in
      rw (contents-cons q e, load_ids-step fuel room una q e)
        (step-Loads fuel room una (q.arr q.start) (contents (advanced q)) (advanced q)
          (load_ids-Loads fuel room una (advanced q) next (omega arith))
          (load_ids-Loads fuel (suc room) una (advanced q) next (omega arith)))
]

pub load-Loads :
    (max_ack una : ℕ) (q : AckQueue)
    → Ring.IsValid q
    → Loads (contents q) max_ack una (load max_ack una q)
unfolding load AckQueue.size Ring.size
load-Loads max_ack una q v = load_ids-Loads q.len max_ack una q v (omega arith)

ack_rounds-done :
    (fuel : ℕ) (una : ℕ → ℕ) (round : ℕ) (q : AckQueue)
    → leb q.len 0 ≡ true
    → ack_rounds fuel una round q ≡ []
unfolding ack_rounds AckQueue.size Ring.size
ack_rounds-done zero una round q h = refl
ack_rounds-done (suc fuel) una round q h = rw h

ack_rounds-step :
    (fuel : ℕ) (una : ℕ → ℕ) (round : ℕ) (q : AckQueue)
    → leb q.len 0 ≡ false
    → ack_rounds (suc fuel) una round q
      ≡ (load 35 (una round) q).0 ∷ ack_rounds fuel una (suc round) (load 35 (una round) q).1
unfolding ack_rounds AckQueue.size Ring.size
ack_rounds-step fuel una round q h = rw h

-- A round leaves fewer ids.
len-load :
    (una : ℕ) (q : AckQueue) → Ring.IsValid q → leb q.len 0 ≡ false → (load 35 una q).1.len < q.len
len-load una q v e =
    let done = load-Loads 35 una q v in
    let left = (load 35 una q).1 in
    omega (
      arith,
      length-window left.arr left.capacity left.start left.len,
      ap length done.rest,
      ap (λ xs. length (take_acks 35 una xs).1) (contents-cons q e),
      take_acks_shorter 34 una (q.arr q.start) (contents (advanced q)),
      length-window q.arr q.capacity ((q.start + 1) % q.capacity) (q.len - 1),
      leb_zero_false→lt q.len e,
    )

-- The ack sender's loop, started with the queue that it copied: with as many rounds as there are
-- ids, every package it sends has at most 35 of them, and every id above all the values that `una`
-- takes meanwhile is sent exactly as often as it was queued, in order.
pub ack_rounds_lem :
    (fuel : ℕ) (una : ℕ → ℕ) (bound round : ℕ) (q : AckQueue)
    → Ring.IsValid q
    → q.len ≤ fuel
    → ((r : ℕ) → una r ≤ bound)
    → All (λ ids. length ids ≤ 35) (ack_rounds fuel una round q)
      × (keep (ltb bound) (flatten (ack_rounds fuel una round q)) ≡ keep (ltb bound) (contents q))
ack_rounds_lem zero una bound round q v h b =
    let empty : leb q.len 0 ≡ true = ground (arith, h) in
    rw (ack_rounds-done 0 una round q empty, contents-empty q empty) (tt, refl)
ack_rounds_lem (suc fuel) una bound round q v h b = elim (Bool-cases (leb q.len 0)) [
  | inl e ↦ rw (ack_rounds-done (suc fuel) una round q e, contents-empty q e) (tt, refl)
  | inr e ↦
      let done = load-Loads 35 (una round) q v in
      let sent = (load 35 (una round) q).0 in
      let left = (load 35 (una round) q).1 in
      let rest =
        ack_rounds_lem fuel una bound (suc round) left done.valid
          (omega (arith, len-load (una round) q v e)) b in
      rw (ack_rounds-step fuel una round q e) (
        (
          omega (arith, ap length done.ids, (length-take_acks 35 (una round) (contents q)).0),
          rest.0,
        ),
        keep-append (ltb bound) sent (flatten (ack_rounds fuel una (suc round) left))
            ∙ ap₂ ◌++◌ (ap (keep (ltb bound)) done.ids) (rest.1 ∙ ap (keep (ltb bound)) done.rest)
            ∙ keep-take_acks 35 (una round) bound (contents q) (b round),
      )
]
