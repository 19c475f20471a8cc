-- ===== src/Socket/Receiver/Acks/Noting.antt =====
-- What is noted of the acknowledgements, and how `send_ack_id` is raised, in the receiver.
use sharpvpn.Base.{
  ℕ, ◌+◌, ◌^◌, ◌≤◌, ◌<◌, ◌≡◌, ◌≢◌, refl, ltb, leb, if◌then◌else◌, List, [], ◌∷◌, ◌++◌, Bool, true,
  not, ◌||◌, ◌&&◌, ◌∙◌, advance_found, elem, elem-append, arith, max,
}
use native.Mathlib.Decide.{dec_lt}
use sharpvpn.NetStruct.IdSet
use sharpvpn.NetStruct.IdSet.{IdSet}
use sharpvpn.NetStruct.IdSet.Laws.{find-insert, size-insert}
use sharpvpn.Socket.Receiver.{raise_send_ack_id, note_acks, is_acked}
use sharpvpn.Socket.State.{Socket, max64}

-- What holds of a socket to which the ids `ids`, and all up to `una`, were acknowledged, while no
-- id went beyond `bound`.
pub record Acked (bound : ℕ) (ids : List ℕ) (una : ℕ) (s : Socket) : Type 0 where
  pub slots : 0 < s.ack_recv_pool.size
  pub room : bound + s.ack_recv_pool.size + 1 < 2 ^ 64
  pub sent : s.send_id ≤ bound
  pub below : s.send_ack_id ≤ bound
  pub noted :
      (k : ℕ) → k ≢ 0 → is_acked s.ack_recv_pool k ≡ true → (elem k ids && leb k bound) ≡ true
  pub covered : (k : ℕ) → k ≢ 0 → k ≤ s.send_ack_id → (elem k ids || leb k una) ≡ true

raise-noted :
    (bound : ℕ) (ids : List ℕ) (una u k : ℕ) (s : Socket)
    → u ≤ bound
    → Acked bound ids una s
    → max64 u s.send_ack_id < k
    → k ≤ (raise_send_ack_id s u).send_ack_id
    → (elem k ids && leb k bound) ≡ true
unfolding raise_send_ack_id
raise-noted bound ids una u k s h c lo hi = c.noted k (omega (arith, lo)) (
    advance_found (is_acked s.ack_recv_pool) s.ack_recv_pool.size (max64 u s.send_ack_id) k
      (ground (arith, c.room, c.below, h)) lo hi)

pub raise-Acked :
    (bound : ℕ) (ids : List ℕ) (una u : ℕ) (s : Socket)
    → u ≤ bound
    → Acked bound ids una s
    → Acked bound ids (max u una) (raise_send_ack_id s u)
raise-Acked bound ids una u s h c =
    let y = (raise_send_ack_id s u).send_ack_id in
    let from = max64 u s.send_ack_id in
    record {
      slots = unfold raise_send_ack_id in c.slots;
      room = unfold raise_send_ack_id in c.room;
      sent = unfold raise_send_ack_id in c.sent;
      below = elim (dec_lt from y) [
        | yes p ↦ ground (arith, raise-noted bound ids una u y s h c p (omega arith))
        | no p ↦ ground (arith, p, c.below, h)
      ];
      noted = unfold raise_send_ack_id in c.noted;
      covered = λ k nz e. elim (dec_lt from k) [
        | yes p ↦ ground (arith, raise-noted bound ids una u k s h c p e)
        | no p ↦ ground (arith, p, c.covered k nz)
      ];
    }

-- One round of the loop of `note_acks`.
abbrev counts : ℕ → ℕ → ℕ → Bool
counts sa si x = not (leb x sa || ltb si x)

abbrev next_max : ℕ → ℕ → ℕ → ℕ → ℕ
next_max sa si x m = if counts sa si x then max64 m x else m

abbrev next_pool : ℕ → ℕ → ℕ → IdSet → IdSet
next_pool sa si x pool =
    if counts sa si x && not (is_acked pool x) then IdSet.insert pool x else pool

size-note_acks :
    (sa si : ℕ) (acks : List ℕ) (m : ℕ) (pool : IdSet)
    → (note_acks sa si acks m pool).1.size ≡ pool.size
unfolding note_acks
size-note_acks sa si [] m pool = refl
size-note_acks sa si (x ∷ acks) m pool =
    size-note_acks sa si acks (next_max sa si x m) (next_pool sa si x pool)
    ∙ ground (arith, size-insert pool x)

insert-noted :
    (pool : IdSet) (x k : ℕ)
    → k ≢ 0
    → is_acked (IdSet.insert pool x) k ≡ true
    → (is_acked pool k || elem k (x ∷ [])) ≡ true
insert-noted pool x k nz e = ground (arith, find-insert pool x k, e)

-- An id that is noted after a list was so before, or is on the list and was sent.
note_acks-noted :
    (sa si : ℕ) (acks : List ℕ) (m : ℕ) (pool : IdSet) (k : ℕ)
    → k ≢ 0
    → is_acked (note_acks sa si acks m pool).1 k ≡ true
    → (is_acked pool k || (elem k acks && leb k si)) ≡ true
unfolding note_acks
note_acks-noted sa si [] m pool k nz e = ground (arith, e)
note_acks-noted sa si (x ∷ acks) m pool k nz e = ground (
  arith,
  note_acks-noted sa si acks (next_max sa si x m) (next_pool sa si x pool) k nz e,
  insert-noted pool x k nz,
)

pub note-Acked :
    (bound : ℕ) (ids : List ℕ) (una m : ℕ) (acks : List ℕ) (s : Socket)
    → Acked bound ids una s
    → Acked bound
        (acks ++ ids)
        una
        (record s { ack_recv_pool = (note_acks s.send_ack_id s.send_id acks m s.ack_recv_pool).1 })
note-Acked bound ids una m acks s c =
    let size = size-note_acks s.send_ack_id s.send_id acks m s.ack_recv_pool in
    record {
      slots = omega (arith, size, c.slots);
      room = omega (arith, size, c.room);
      sent = c.sent;
      below = c.below;
      noted = λ k nz e. ground (
        arith,
        note_acks-noted s.send_ack_id s.send_id acks m s.ack_recv_pool k nz e,
        c.noted k nz,
        c.sent,
        elem-append k acks ids,
      );
      covered = λ k nz e. ground (arith, c.covered k nz e, elem-append k acks ids);
    }
