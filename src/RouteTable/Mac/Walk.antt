-- ===== src/RouteTable/Mac/Walk.antt =====
-- Where the loop over an answer's addresses finds them.
use sharpvpn.Base.{
  ℕ, ◌+◌, ◌*◌, ◌/◌, ◌%◌, ◌<◌, ◌≡◌, List, [], ◌∷◌, length, Option, none, some, read, arith,
}
use sharpvpn.RouteTable.Mac.{next_sa, roundup, walk}

-- The bits of a list of addresses that are there or not.
abbrev pub bits_of : List (Option (List ℕ)) → ℕ
bits_of [] = 0
bits_of (none ∷ sas) = 2 * bits_of sas
bits_of (some sa ∷ sas) = 1 + 2 * bits_of sas

module _ (buf : ℕ → ℕ) where
  -- The addresses that are there, one after the other, each of them says its length and is followed
  -- by another at the next multiple of 8.
  abbrev pub Lays : ℕ → List (Option (List ℕ)) → Type 0
  Lays i [] = Unit {0}
  Lays i (none ∷ sas) = Lays i sas
  Lays i (some sa ∷ sas) =
      ((0 < length sa) × (buf i ≡ length sa) × (read buf i (length sa) ≡ sa))
      × Lays (i + roundup (length sa)) sas

  -- Entries that point to addresses.
  abbrev pub Found : List (Option ℕ) → List (Option (List ℕ)) → Type 0
  Found [] [] = Unit {0}
  Found (none ∷ es) (none ∷ sas) = Found es sas
  Found (some i ∷ es) (some sa ∷ sas) = (read buf i (length sa) ≡ sa) × Found es sas
  Found _ _ = ⊥

  -- The loop finds each of the addresses that are there, and none for the others.
  pub walk_lem :
      (sas : List (Option (List ℕ))) (i : ℕ)
      → Lays i sas
      → Found (walk (length sas) buf (bits_of sas) i) sas
  unfolding walk
  walk_lem [] i h = tt
  walk_lem (none ∷ sas) i h =
      let odd : 2 * bits_of sas % 2 ≡ 0 = omega arith in
      let half : 2 * bits_of sas / 2 ≡ bits_of sas = omega arith in
      rw odd (rw half (walk_lem sas i h))
  walk_lem (some sa ∷ sas) i h =
      let odd : (1 + 2 * bits_of sas) % 2 ≡ 1 = omega arith in
      let half : (1 + 2 * bits_of sas) / 2 ≡ bits_of sas = omega arith in
      let next : next_sa (buf i) ≡ roundup (length sa) = ground (arith, h.0.0, h.0.1) in
      rw odd (rw half (rw next (h.0.2, walk_lem sas (i + roundup (length sa)) h.1)))
