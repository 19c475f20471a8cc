-- ===== src/NetStruct/IdSet.antt =====
-- `IdSet` of src/rudp/NetStruct.cpp: a direct-mapped table of the ids that were acknowledged.
pub mod Laws
mod Tests
use sharpvpn.Base.{ℕ, ◌%◌, ◌==◌, if◌then◌else◌, update, List, [], ◌∷◌}

pub record IdSet : Type 0 where
  pub arr : ℕ → ℕ
  pub size : ℕ

-- The constructor does not clear the array: its entries are what `memory` held.
unfoldable pub init : (ℕ → ℕ) → ℕ → IdSet
init memory arr_size = record { arr = memory; size = arr_size }

unfoldable pub insert : IdSet → ℕ → IdSet
insert s a = record s { arr = update s.arr (a % s.size) a }

unfoldable pub find : IdSet → ℕ → ℕ
find s index = if s.arr (index % s.size) == index then s.arr (index % s.size) else 0

-- Ids inserted one after the other.
abbrev pub insert_all : IdSet → List ℕ → IdSet
insert_all s [] = s
insert_all s (a ∷ ids) = insert_all (insert s a) ids
