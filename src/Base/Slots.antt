-- ===== src/Base/Slots.antt =====
-- Tables that keep the entry of `id` at `id % cap`.
use Prim.Native.Nat.{ℕ, zero, suc, ◌+◌, ◌^◌, ◌%◌, ◌≤◌, ◌<◌}
use mathlib.Core.Path.{◌≡◌, refl, sym, ap, ◌∙◌}
use mathlib.Core.Bool.{Bool, true, false, ◌||◌}
use mathlib.Core.Logic.{◌⊎◌, inl, inr}
use mathlib.Core.List.{List, [], ◌∷◌, ◌++◌}
use native.Mathlib.Omega.{arith}
use native.Mathlib.Decide.{dec_lt}
use native.Mathlib.Nat.{div-add-mod, mod-eq_of_lt, add-mod_right}
use sharpvpn.Base.Tests.{◌==◌, Bool-cases}

abbrev pub elem : ℕ → List ℕ → Bool
elem i [] = false
elem i (x ∷ xs) = (x == i) || elem i xs

pub elem-append : (i : ℕ) (xs ys : List ℕ) → elem i (xs ++ ys) ≡ (elem i xs || elem i ys)
elem-append i [] ys = refl
elem-append i (x ∷ xs) ys = ground (arith, elem-append i xs ys)

slot_le : (cap base a i : ℕ) → base ≤ a → a ≤ i → i < base + cap → a % cap ≡ i % cap → a ≡ i
slot_le cap base a i h1 h2 h3 e = grind (arith, div-add-mod a cap, div-add-mod i cap)

-- Ids of one range no longer than the table that share a slot are the same.
pub slot_injective :
    (cap base a i : ℕ)
    → base ≤ a
    → a < base + cap
    → base ≤ i
    → i < base + cap
    → a % cap ≡ i % cap
    → a ≡ i
slot_injective cap base a i h1 h2 h3 h4 e = elim (dec_lt i a) [
  | yes p ↦ sym (slot_le cap base i a h3 (omega arith) h2 (sym e))
  | no p ↦ slot_le cap base a i h1 (omega arith) h4 e
]

-- `while (found(x + 1)) x++;` over a `uint64_t`: `fuel` bounds the rounds.
unfoldable pub advance : (ℕ → Bool) → ℕ → ℕ → ℕ
advance found zero x = x
advance found (suc fuel) x = elim (found ((x + 1) % 2 ^ 64)) [
  | true ↦ advance found fuel ((x + 1) % 2 ^ 64)
  | false ↦ x
]

-- The loop never passes an id that is not found.
pub advance_found :
    (found : ℕ → Bool) (fuel x k : ℕ)
    → x + fuel < 2 ^ 64
    → x < k
    → k ≤ advance found fuel x
    → found k ≡ true
unfolding advance
advance_found found zero x k h lo hi = absurd (omega arith)
advance_found found (suc fuel) x k h lo hi =
    ground (arith, advance_found found fuel (x + 1) k, mod-eq_of_lt {n = x + 1} {m = 2 ^ 64})

pub advance_bounds :
    (found : ℕ → Bool) (fuel x : ℕ)
    → x + fuel < 2 ^ 64
    → (x ≤ advance found fuel x) × (advance found fuel x ≤ x + fuel)
unfolding advance
advance_bounds found zero x h = omega arith
advance_bounds found (suc fuel) x h =
    ground (arith, advance_bounds found fuel (x + 1), mod-eq_of_lt {n = x + 1} {m = 2 ^ 64})

-- It stops at an id that is not found, or has used up its fuel.
pub advance_stops :
    (found : ℕ → Bool) (fuel x : ℕ)
    → x + suc fuel < 2 ^ 64
    → (found (advance found fuel x + 1) ≡ false) ⊎ (advance found fuel x ≡ x + fuel)
unfolding advance
advance_stops found zero x h = inr (omega arith)
advance_stops found (suc fuel) x h =
    ground (arith, advance_stops found fuel (x + 1), mod-eq_of_lt {n = x + 1} {m = 2 ^ 64})

-- In a table of `cap` slots, where an id is found only in its own slot, `cap` rounds are enough:
-- one more would find two ids in one slot.
pub advance_enough :
    (found : ℕ → Bool) (slots : ℕ → ℕ) (cap x : ℕ)
    → 0 < cap
    → x + cap + 1 < 2 ^ 64
    → ((k : ℕ) → found k ≡ true → slots (k % cap) ≡ k)
    → found (advance found cap x + 1) ≡ false
advance_enough found slots cap x hc h own = elim (Bool-cases (found (x + cap + 1))) [
  | inl t ↦ ground (
    arith,
    advance_stops found cap x,
    advance_found found cap x (x + 1),
    own (x + 1),
    own (x + cap + 1) t,
    ap slots same_slot,
  )
  | inr f ↦ ground (arith, advance_stops found cap x, f)
]
  where
    same_slot : (x + cap + 1) % cap ≡ (x + 1) % cap
    same_slot = ap (λ k. k % cap) swapped ∙ add-mod_right (x + 1) cap
      where
        swapped : x + cap + 1 ≡ x + 1 + cap
        swapped = omega arith
