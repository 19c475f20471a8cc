-- ===== src/NetStruct/IdSet/Tests.antt =====
-- The set of ids at concrete inputs.
use sharpvpn.Base.{◌≡◌, refl, [], ◌∷◌}
use sharpvpn.NetStruct.IdSet.{IdSet, init, insert, find, insert_all}

abbrev four_slots : IdSet
four_slots = init (λ _. 0) 4

-- An id evicts the one that had its slot.
insert_evicts : find (insert_all four_slots (5 ∷ 9 ∷ [])) 5 ≡ 0
unfolding init insert find
insert_evicts = refl
