-- ===== src/Socket/Segments/Stall.antt =====
-- A segment that does not fit in an empty package is never taken off the queue, in the outer loop of
-- `start_thread_segment` (src/rudp/ReliableSocket.cpp), here round by round.
use sharpvpn.Base.{
  ℕ, zero, suc, ◌+◌, ◌≤◌, ◌≡◌, refl, sym, ap, ◌∙◌, List, [], ◌∷◌, ◌++◌, Option, none, some, length,
  arith, ltb, Bool, true, false, if◌then◌else◌, le→ltb_false, read,
}
use mathlib.Core.Option
use sharpvpn.Socket.Segments.{Batch, fill, pack}

-- A round of the outer loop: what it sends, and the variables after it.
abbrev round : ℕ → Batch → List (List ℕ) × Batch
round m b =
    let f = fill m b.buf 2 b.list in (if ltb 2 f.start then read f.buf 0 f.start ∷ [] else [], f)

-- That many rounds. One with nothing in the list, where the source's loop has ended, changes
-- nothing of it and sends nothing.
abbrev pub rounds : ℕ → ℕ → Batch → List (List ℕ) × Batch
rounds zero m b = ([], b)
rounds (suc n) m b =
    let (sent, b') = round m b in let (later, b'') = rounds n m b' in (sent ++ later, b'')

-- What the loop sends, once it has ended.
abbrev ended : List (List ℕ) × Batch → Option (List (List ℕ))
ended (sent, b) = elim (b.list) [ [] ↦ some sent | s ∷ list ↦ none ]

abbrev batch : (ℕ → ℕ) → ℕ → List (List ℕ) → Batch
batch buf start list = record { buf = buf; start = start; list = list }

rounds_empty : (n m start : ℕ) (buf : ℕ → ℕ) → ended (rounds n m (batch buf start [])) ≡ some []
unfolding fill
rounds_empty zero m start buf = refl
rounds_empty (suc n) m start buf = rounds_empty n m 2 buf

ended-append_list :
    (sent later list : List (List ℕ)) (buf : ℕ → ℕ) (start : ℕ)
    → ended (sent ++ later, batch buf start list)
      ≡ Option.map (λ x. sent ++ x) (ended (later, batch buf start list))
ended-append_list sent later [] buf start = refl
ended-append_list sent later (s ∷ list) buf start = refl

ended-append :
    (sent : List (List ℕ)) (r : List (List ℕ) × Batch)
    → ended (sent ++ r.0, r.1) ≡ Option.map (λ x. sent ++ x) (ended r)
ended-append sent (later, b) = ended-append_list sent later b.list b.buf b.start

ended-message :
    (b : Bool) (message : List ℕ) (r : List (List ℕ) × Batch)
    → ended ((if b then message ∷ [] else []) ++ r.0, r.1)
      ≡ (if b then Option.map (λ l. message ∷ l) (ended r) else ended r)
ended-message true message r = ended-append (message ∷ []) r
ended-message false message r = refl

-- The rounds of `pack` are these.
pack-rounds :
    (n m start : ℕ) (buf : ℕ → ℕ) (list : List (List ℕ))
    → pack n m buf list ≡ ended (rounds n m (batch buf start list))
unfolding pack
pack-rounds n m start buf [] = sym (rounds_empty n m start buf)
pack-rounds zero m start buf (s ∷ list) = refl
pack-rounds (suc n) m start buf (s ∷ list) =
    let f = fill m buf 2 (s ∷ list) in
    ap (λ later. if ltb 2 f.start then Option.map (λ l. read f.buf 0 f.start ∷ l) later else later)
      (pack-rounds n m f.start f.buf f.list)
    ∙ sym (ended-message (ltb 2 f.start) (read f.buf 0 f.start) (rounds n m f))

fill_too_long :
    (m : ℕ) (buf : ℕ → ℕ) (s : List ℕ) (list : List (List ℕ))
    → m ≤ length s + 4
    → fill m buf 2 (s ∷ list) ≡ record { buf = buf; start = 2; list = s ∷ list }
unfolding fill
fill_too_long m buf s list h = rw (le→ltb_false (length s + 2 + 2) m (omega arith))

rounds_too_long :
    (n m : ℕ) (buf : ℕ → ℕ) (s : List ℕ) (list : List (List ℕ))
    → m ≤ length s + 4
    → let b : Batch = record { buf = buf; start = 2; list = s ∷ list } in rounds n m b ≡ ([], b)
rounds_too_long zero m buf s list h = refl
rounds_too_long (suc n) m buf s list h =
    rw (fill_too_long m buf s list h) (rw (rounds_too_long n m buf s list h) refl)

-- A segment that is too long for a package holds up the thread for good: no number of rounds sends
-- anything, and after each of them the list still is this segment and all that is queued behind it,
-- so that the loop does not end.
pub pack_stalls :
    (n m : ℕ) (buf : ℕ → ℕ) (s : List ℕ) (list : List (List ℕ))
    → m ≤ length s + 4
    → let (sent, b) = rounds n m (record { buf = buf; start = 2; list = s ∷ list }) in
      (sent ≡ []) × (b.list ≡ s ∷ list) × (pack n m buf (s ∷ list) ≡ none)
pack_stalls n m buf s list h =
    let r = rounds_too_long n m buf s list h in
    (ap (λ x. x.0) r, ap (λ x. x.1.list) r, pack-rounds n m 2 buf (s ∷ list) ∙ ap ended r)
