-- ===== src/Vpn/Maps.antt =====
-- `std::map` as a list of pairs, of which the first with a key counts.
use sharpvpn.Base.{
  ℕ, ◌≡◌, refl, List, [], ◌∷◌, ◌==◌, if◌then◌else◌, Option, none, some, is_some, arith, elem,
}

abbrev pub Map : Type 0 → Type 0
Map V = List (ℕ × V)

module _ {V : Type 0} where
  unfoldable pub lookup : Map V → ℕ → Option V
  lookup [] k = none
  lookup ((key, v) ∷ m) k = if key == k then some v else lookup m k

  unfoldable pub erase : Map V → ℕ → Map V
  erase [] k = []
  erase ((key, v) ∷ m) k = let rest = erase m k in if key == k then rest else (key, v) ∷ rest

  -- `m[k] = v`
  unfoldable pub assign : Map V → ℕ → V → Map V
  assign m k v = (k, v) ∷ erase m k

  abbrev pub keys : Map V → List ℕ
  keys [] = []
  keys ((key, v) ∷ m) = key ∷ keys m

  pub lookup-erase :
      (m : Map V) (k i : ℕ) → lookup (erase m k) i ≡ (if k == i then none else lookup m i)
  unfolding lookup erase
  lookup-erase [] k i = ground arith
  lookup-erase ((key, v) ∷ m) k i = ground (arith, lookup-erase m k i)

  pub lookup-assign :
      (m : Map V) (k i : ℕ) (v : V)
      → lookup (assign m k v) i ≡ (if k == i then some v else lookup m i)
  unfolding lookup assign
  lookup-assign m k i v = ground (arith, lookup-erase m k i)

  pub elem-keys : (m : Map V) (k : ℕ) → elem k (keys m) ≡ is_some (lookup m k)
  unfolding lookup
  elem-keys [] k = refl
  elem-keys ((key, v) ∷ m) k = ground (arith, elem-keys m k)
