-- ===== src/NetStruct/Ring/Tests.antt =====
-- Runs of the buffer, and the theorems at concrete inputs.
use sharpvpn.Base.{ℕ, ◌+◌, ◌≡◌, refl, [], ◌∷◌, ◌++◌, some, drop, head?, arith}
use mathlib.Core.Equiv.{IsEquiv}
use mathlib.Core.Quot
use native.Mathlib.Nat.{ℕ_set}
use sharpvpn.NetStruct.Ring.Queue.{RingOf, held, pushed, popped, queue_lem}
use sharpvpn.NetStruct.Ring.{Ring, push, pop, IsValid, contents}
use sharpvpn.NetStruct.Ring.Contents.{push_lem}

-- Two entries in a buffer of three, the second behind the wrap.
abbrev two_items : Ring ℕ
two_items = record { arr = λ i. i + 10; len = 2; start = 2; end = 1; capacity = 3 }

abbrev full_ring : Ring ℕ
full_ring = push two_items 5

pop_wraps : (pop (pop two_items).1).0 ≡ some 10
unfolding pop
pop_wraps = refl

two_items-IsValid : IsValid two_items
two_items-IsValid = record { start_in = omega arith; len_in = omega arith; end_at = refl }

full_ring-IsValid : IsValid full_ring
full_ring-IsValid = (push_lem two_items 5 two_items-IsValid (omega arith)).0

push_lem_example :
    IsValid (push two_items 7) × (contents (push two_items 7) ≡ contents two_items ++ (7 ∷ []))
push_lem_example = push_lem two_items 7 two_items-IsValid (omega arith)

abbrev two_of_three : RingOf ℕ 3
two_of_three = (two_items, two_items-IsValid, refl)

queue_lem_example :
    IsEquiv (held ℕ_set 3)
    × ((held ℕ_set 3 (Quot.mk (pushed two_of_three 7 (omega arith)))).0
        ≡ (held ℕ_set 3 (Quot.mk two_of_three)).0 ++ (7 ∷ []))
    × ((pop two_items).0 ≡ head? (held ℕ_set 3 (Quot.mk two_of_three)).0)
    × ((held ℕ_set 3 (Quot.mk (popped two_of_three))).0
        ≡ drop 1 (held ℕ_set 3 (Quot.mk two_of_three)).0)
queue_lem_example = queue_lem ℕ_set (λ i. i) 3 (omega arith) two_of_three 7 (omega arith)
