-- ===== src/NetStruct/PackageMap/Laws.antt =====
-- The receiver's table as a map: what `set` and `erase` do to every lookup, and what they delete.
use sharpvpn.Base.{
  ℕ, ◌%◌, ◌≡◌, ◌≢◌, refl, ◌∷◌, true, ◌==◌, if◌then◌else◌, none, some, arith, is_some,
}
use sharpvpn.NetStruct.PackageMap.{PackageMap, init, find, at, set, erase, delete}

module _ {A : Type 0} where
  pub find-init : (arr_size i : ℕ) → find (init {A = A} arr_size) i ≡ none
  unfolding find init
  find-init arr_size i = ground arith

  -- After `set` the new id is found; an id that shares its slot is not; no other lookup changes.
  pub find-set :
      (m : PackageMap A) (index i : ℕ) (d : A)
      → find (set m index d) i ≡ (
          if index % m.capacity == i % m.capacity
          then (if index == i then some d else none)
          else find m i)
  unfolding find set
  find-set m index i d = ground arith

  -- After `erase` the id is not found, and no other lookup changes.
  pub find-erase :
      (m : PackageMap A) (index i : ℕ)
      → i ≢ 0
      → find (erase m index) i ≡ (if index == i then none else find m i)
  unfolding find erase
  find-erase m index i h = ground arith

  pub capacity-set : (m : PackageMap A) (index : ℕ) (d : A) → (set m index d).capacity ≡ m.capacity
  unfolding set
  capacity-set m index d = refl

  pub capacity-erase : (m : PackageMap A) (index : ℕ) → (erase m index).capacity ≡ m.capacity
  unfolding erase
  capacity-erase m index = ground arith

  -- An id is found only in its own slot.
  pub arr_id_of_find :
      (m : PackageMap A) (i : ℕ) → is_some (find m i) ≡ true → m.arr_id (i % m.capacity) ≡ i
  unfolding find
  arr_id_of_find m i h = ground arith

  -- `set` deletes exactly the package that its slot still owned, and none where the slot is free.
  pub freed-set :
      (m : PackageMap A) (index : ℕ) (d : A)
      → (set m index d).freed ≡ (
          let owner = m.arr_id (index % m.capacity) in
          if owner == 0 then m.freed else delete (at m index) m.freed)
  unfolding set at
  freed-set m index d = refl

  -- `erase` of an id that is there deletes its package and leaves the pointer in the slot, so
  -- `operator[]` still returns the deleted package.
  pub at-erase :
      (m : PackageMap A) (index : ℕ) (d : A)
      → find m index ≡ some d
      → ((erase m index).freed ≡ d ∷ m.freed) × (at (erase m index) index ≡ some d)
  unfolding erase at find
  at-erase m index d h = ground arith
