-- ===== src/NetStruct/AckWaitList/Tests.antt =====
-- Runs of the wait list, and the theorems at concrete inputs.
use sharpvpn.Base.{ℕ, ◌<◌, ◌≡◌, refl, [], ◌∷◌, some, arith}
use sharpvpn.NetStruct.AckWaitList.{AckWaitList, init, push, pop, pass_over, skip, take_front}
use sharpvpn.NetStruct.AckWaitList.Settle.{settle, settle_last, settle_keeps, occurrences}
use sharpvpn.NetStruct.AckWaitList.Refine.{
  IsValid, Settles, contents, init-IsValid, push_refines, pop_refines, slot_of,
}

-- Packages that are their ids, in a list of four.
abbrev sent : AckWaitList ℕ
sent = init (λ _. 0) 4

abbrev resent : AckWaitList ℕ
resent = push (λ i. i) (push (λ i. i) (push (λ i. i) sent 7) 8) 7

-- The first transmission of 7 is passed over.
pop_passes_over : (pop (λ i. i) resent).0 ≡ some 8
unfolding init push pop pass_over skip take_front
pop_passes_over = refl

sent-IsValid : IsValid (λ i. i) sent
sent-IsValid = init-IsValid (λ i. i) (λ _. 0) 4 (omega arith)

resent-IsValid : IsValid (λ i. i) resent
unfolding init push
resent-IsValid =
    let one = push_refines (λ i. i) sent 7 sent-IsValid (omega arith) in
    let two = push_refines (λ i. i) (push (λ i. i) sent 7) 8 one.0 (omega arith) in
    (push_refines (λ i. i) (push (λ i. i) (push (λ i. i) sent 7) 8) 7 two.0 (omega arith)).0

pop_refines_example : Settles (λ i. i) (contents resent) resent.capacity (pop (λ i. i) resent)
pop_refines_example = pop_refines (λ i. i) resent resent-IsValid

settle_last_example : occurrences (slot_of (λ i. i) 4) 0 (7 ∷ []) ≡ 0
unfolding settle
settle_last_example = settle_last (slot_of (λ i. i) 4) (7 ∷ 8 ∷ 7 ∷ []) (7 ∷ []) 8 refl

settle_keeps_example : 0 < occurrences (slot_of (λ i. i) 4) 3 (8 ∷ 7 ∷ [])
unfolding settle
settle_keeps_example =
    settle_keeps (slot_of (λ i. i) 4) (7 ∷ 8 ∷ 7 ∷ []) (7 ∷ []) 8 3 refl (omega arith)
