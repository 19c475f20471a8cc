-- ===== src/NetStruct/PackageMap/Tests.antt =====
-- The receiver's table at concrete inputs.
use sharpvpn.Base.{ℕ, ◌≡◌, refl, [], ◌∷◌, some}
use sharpvpn.NetStruct.PackageMap.{PackageMap, init, set, erase, push, pop, de_init}

-- Package 20 under the id 2, in a table of four.
abbrev one_package : PackageMap ℕ
one_package = set (init 4) 2 20

-- What was erased is deleted once more with the table.
de_init_deletes_twice : (de_init (erase one_package 2)).freed ≡ 20 ∷ 20 ∷ []
unfolding init set erase de_init
de_init_deletes_twice = refl

pop-push_first : (pop (push (init {A = ℕ} 4) 1 10)).0 ≡ some 10
unfolding init push pop
pop-push_first = refl
