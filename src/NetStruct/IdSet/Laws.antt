-- ===== src/NetStruct/IdSet/Laws.antt =====
-- Within a range no longer than the table an `IdSet` is the set of the ids inserted.
use sharpvpn.Base.{
  ℕ, ◌+◌, ◌%◌, ◌≤◌, ◌<◌, ◌≡◌, refl, List, [], ◌∷◌, ◌==◌, if◌then◌else◌, All, arith, elem,
  slot_injective,
}
use sharpvpn.NetStruct.IdSet.{IdSet, init, insert, find, insert_all}

-- An insertion evicts the id that had its slot, and touches no other slot.
pub find-insert :
    (s : IdSet) (a i : ℕ)
    → find (insert s a) i
      ≡ (if a % s.size == i % s.size then (if a == i then i else 0) else find s i)
unfolding find insert
find-insert s a i = ground arith

pub size-insert : (s : IdSet) (a : ℕ) → (insert s a).size ≡ s.size
unfolding insert
size-insert s a = refl

find-insert_near :
    (s : IdSet) (a i base : ℕ)
    → base ≤ a
    → a < base + s.size
    → base ≤ i
    → i < base + s.size
    → find (insert s a) i ≡ (if a == i then i else find s i)
find-insert_near s a i base h1 h2 h3 h4 =
    ground (arith, find-insert s a i, slot_injective s.size base a i)

-- Ids within one length of the table do not disturb each other: after any insertions from such a
-- range, `find` of an id of the range returns it if it was inserted, and else what it did before.
pub find-insert_all :
    (s : IdSet) (ids : List ℕ) (i base : ℕ)
    → All (λ a. (base ≤ a) × (a < base + s.size)) ids
    → base ≤ i
    → i < base + s.size
    → find (insert_all s ids) i ≡ (if elem i ids then i else find s i)
unfolding insert
find-insert_all s [] i base h lo hi = refl
find-insert_all s (a ∷ ids) i base h lo hi = ground (
  arith,
  find-insert_all (insert s a) ids i base h.1 lo hi,
  find-insert_near s a i base h.0.0 h.0.1 lo hi,
  size-insert s a,
)

-- The constructor leaves the table as it finds it, so a new set reports the ids that the memory
-- happens to hold in their own slots, and no others.
pub find-init :
    (memory : ℕ → ℕ) (arr_size i : ℕ)
    → find (init memory arr_size) i ≡ (if memory (i % arr_size) == i then i else 0)
unfolding find init
find-init memory arr_size i = ground arith
