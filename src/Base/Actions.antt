-- ===== src/Base/Actions.antt =====
-- Methods that change a state and may return early: what was changed stays changed.
use mathlib.Core.Bool.{Bool, true, false}
use mathlib.Core.Option.{Option, none, some}

-- The result is `none` where the method returns an error.
abbrev pub Action : Type 0 → Type 0 → Type 0
Action S A = S → Option A × S

module _ {S : Type 0} where
  abbrev pub pure : {A : Type 0} → A → Action S A
  pure a s = (some a, s)

  abbrev pub fail : {A : Type 0} → Action S A
  fail s = (none, s)

  abbrev pub gets : {A : Type 0} → (S → A) → Action S A
  gets f s = (some (f s), s)

  abbrev pub modify : (S → S) → Action S (Unit {0})
  modify f s = (some tt, f s)

  abbrev pub fail_if : Bool → Action S (Unit {0})
  fail_if true s = (none, s)
  fail_if false s = (some tt, s)

infixl 5 ◌>>=◌ ◌>>◌
abbrev pub ◌>>=◌ : {S A B : Type 0} → Action S A → (A → Action S B) → Action S B
◌>>=◌ m f s = let (r, s') = m s in elim r [ some a ↦ f a s' | none ↦ (none, s') ]

abbrev pub ◌>>◌ : {S A B : Type 0} → Action S A → Action S B → Action S B
m >> k = m >>= λ _. k
