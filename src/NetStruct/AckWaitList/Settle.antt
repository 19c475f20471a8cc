-- ===== src/NetStruct/AckWaitList/Settle.antt =====
-- What `AckWaitList.pop` means on the list of waiting packages: pass over every package whose slot
-- waits again further on, and take the first that does not.
use sharpvpn.Base.{
  ℕ, ◌+◌, ◌≤◌, ◌<◌, ◌≡◌, List, [], ◌∷◌, ◌++◌, Option, none, some, arith, leb, ◌==◌, if◌then◌else◌,
  length, Bool-cases, inl, inr,
}

module _ {A : Type 0} (slot_of : A → ℕ) where
  abbrev pub occurrences : ℕ → List A → ℕ
  occurrences s [] = 0
  occurrences s (x ∷ xs) = (if slot_of x == s then 1 else 0) + occurrences s xs

  unfoldable pub settle : List A → Option A × List A
  settle [] = (none, [])
  settle (x ∷ xs) = if leb 1 (occurrences (slot_of x) xs) then settle xs else (some x, xs)

  pub occurrences-append :
      (s : ℕ) (xs ys : List A) → occurrences s (xs ++ ys) ≡ occurrences s xs + occurrences s ys
  occurrences-append s [] ys = omega arith
  occurrences-append s (x ∷ xs) ys = ground (arith, occurrences-append s xs ys)

  -- What is taken does not wait again.
  pub settle_last :
      (xs rest : List A) (x : A) → settle xs ≡ (some x, rest) → occurrences (slot_of x) rest ≡ 0
  unfolding settle
  settle_last [] rest x h = ground arith
  settle_last (y ∷ xs) rest x h = ground (arith, settle_last xs rest x)

  pub occurrences-le-length : (s : ℕ) (xs : List A) → occurrences s xs ≤ length xs
  occurrences-le-length s [] = omega arith
  occurrences-le-length s (x ∷ xs) = ground (arith, occurrences-le-length s xs)

  -- Something is taken, unless nothing waits.
  pub settle-some :
      (xs : List A) → 0 < length xs → (x : A) × (rest : List A) × (settle xs ≡ (some x, rest))
  unfolding settle
  settle-some [] h = absurd (omega arith)
  settle-some (y ∷ xs) h = elim (Bool-cases (leb 1 (occurrences (slot_of y) xs))) [
    | inl again ↦
        rw again (settle-some xs (ground (arith, again, occurrences-le-length (slot_of y) xs)))
    | inr done ↦ (y, xs, rw done)
  ]

  -- No slot that waits is forgotten: it is that of the package taken, or still waits.
  pub settle_keeps :
      (xs rest : List A) (x : A) (s : ℕ)
      → settle xs ≡ (some x, rest)
      → 0 < occurrences s xs
      → 0 < occurrences s (x ∷ rest)
  unfolding settle
  settle_keeps [] rest x s h w = ground arith
  settle_keeps (y ∷ xs) rest x s h w = ground (arith, settle_keeps xs rest x s)
