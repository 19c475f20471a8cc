-- ===== src/Package/PackageAck/Batches.antt =====
-- What loading means on the list of ids to acknowledge.
use sharpvpn.Base.{
  ℕ, zero, suc, ◌≤◌, ◌≡◌, refl, ltb, if◌then◌else◌, List, [], ◌∷◌, ◌++◌, arith, length, keep,
}

-- The first `room` ids above `una`, and the ids behind them.
unfoldable pub take_acks : ℕ → ℕ → List ℕ → List ℕ × List ℕ
take_acks zero una xs = ([], xs)
take_acks (suc room) una [] = ([], [])
take_acks (suc room) una (x ∷ xs) =
    if ltb una x
    then (let rest = take_acks room una xs in (x ∷ rest.0, rest.1))
    else take_acks (suc room) una xs

pub length-take_acks :
    (room una : ℕ) (xs : List ℕ)
    → (length (take_acks room una xs).0 ≤ room) × (length (take_acks room una xs).1 ≤ length xs)
unfolding take_acks
length-take_acks zero una xs = (omega arith, omega arith)
length-take_acks (suc room) una [] = (omega arith, omega arith)
length-take_acks (suc room) una (x ∷ xs) =
    ground (arith, length-take_acks room una xs, length-take_acks (suc room) una xs)

-- A list that is not empty gets shorter.
pub take_acks_shorter :
    (room una x : ℕ) (xs : List ℕ) → length (take_acks (suc room) una (x ∷ xs)).1 ≤ length xs
unfolding take_acks
take_acks_shorter room una x xs =
    ground (arith, length-take_acks room una xs, length-take_acks (suc room) una xs)

-- Ids above the `una` in force are neither lost nor moved: those taken, then those left.
pub keep-take_acks :
    (room una bound : ℕ) (xs : List ℕ)
    → una ≤ bound
    → keep (ltb bound) (take_acks room una xs).0 ++ keep (ltb bound) (take_acks room una xs).1
      ≡ keep (ltb bound) xs
unfolding take_acks
keep-take_acks zero una bound xs h = refl
keep-take_acks (suc room) una bound [] h = refl
keep-take_acks (suc room) una bound (x ∷ xs) h =
    ground (arith, keep-take_acks room una bound xs h, keep-take_acks (suc room) una bound xs h)
