-- ===== src/NetStruct/Ring.antt =====
-- The cyclic buffer that `PackageSegmentList` (src/rudp/NetStruct.cpp) and `AckQueue`
-- (src/rudp/Package.h) both write out. Neither class checks that there is room.
-- A `long` here only counts up to the capacity, so it is a number.
pub mod Contents
pub mod Handoff
pub mod Queue
mod Tests
use sharpvpn.Base.{
  ℕ, ◌+◌, ◌-◌, ◌%◌, ◌≤◌, ◌<◌, ◌≡◌, List, [], ◌∷◌, Option, none, some, leb, if◌then◌else◌, update,
  window,
}

pub record Ring {ℓ} (A : Type ℓ) : Type ℓ where
  pub arr : ℕ → A
  pub len : ℕ
  pub start : ℕ
  pub end : ℕ
  pub capacity : ℕ

module _ {ℓ} {A : Type ℓ} where
  -- The constructor allocates the array and leaves its entries as they come: `memory`.
  unfoldable pub init : (ℕ → A) → ℕ → Ring A
  init memory cap = record { arr = memory; len = 0; start = 0; end = 0; capacity = cap }

  unfoldable pub push : Ring A → A → Ring A
  push r x = record r {
    arr = update r.arr r.end x;
    end = (r.end + 1) % r.capacity;
    len = r.len + 1;
  }

  -- `none` is the null pointer.
  unfoldable pub pop : Ring A → Option A × Ring A
  pop r =
      if leb r.len 0
      then (none, r)
      else (some (r.arr r.start), record r { start = (r.start + 1) % r.capacity; len = r.len - 1 })

  unfoldable pub front : Ring A → Option A
  front r = if leb r.len 0 then none else some (r.arr r.start)

  unfoldable pub rebase : Ring A → Ring A
  rebase r = record r { len = 0; start = r.end }

  unfoldable pub size : Ring A → ℕ
  size r = r.len

  pub record IsValid (r : Ring A) : Type 0 where
    pub start_in : r.start < r.capacity
    pub len_in : r.len ≤ r.capacity
    pub end_at : r.end ≡ (r.start + r.len) % r.capacity

  -- What the buffer holds, oldest first.
  abbrev pub contents : Ring A → List A
  contents r = window r.arr r.capacity r.start r.len

  abbrev pub push_all : Ring A → List A → Ring A
  push_all r [] = r
  push_all r (x ∷ xs) = push_all (push r x) xs
