-- ===== src/NetStruct/AckWaitList.antt =====
-- `AckWaitList` of src/rudp/NetStruct.cpp: the packages that were sent and wait for their ack, in
-- the order of sending. `count_list` counts, by id modulo the capacity, how often a package waits,
-- and `pop` passes over all but the last transmission.
-- A package is any value `A`; `id_of` reads the id in its header, which does not change once it is
-- sent. The counts start at 0 and are lowered only above 1, so the `int`s are numbers.
pub mod Settle
pub mod Refine
mod Tests
use sharpvpn.Base.{
  ℕ, zero, suc, ◌+◌, ◌-◌, ◌%◌, ltb, leb, if◌then◌else◌, update, true, false, Option, none, some,
}

pub record AckWaitList (A : Type 0) : Type 0 where
  pub start : ℕ
  pub end : ℕ
  pub len : ℕ
  pub capacity : ℕ
  pub queue : ℕ → A
  pub count_list : ℕ → ℕ

module _ {A : Type 0} where
  -- The entries are null pointers, `memory`, until they are written.
  unfoldable pub init : (ℕ → A) → ℕ → AckWaitList A
  init memory cap = record {
    start = 0;
    end = 0;
    len = 0;
    capacity = cap;
    queue = memory;
    count_list = λ _. 0;
  }

  unfoldable pub size : AckWaitList A → ℕ
  size q = q.len

module _ {A : Type 0} (id_of : A → ℕ) where
  unfoldable pub push : AckWaitList A → A → AckWaitList A
  push q d = record q {
    queue = update q.queue q.end d;
    end = (q.end + 1) % q.capacity;
    count_list = update q.count_list slot (q.count_list slot + 1);
    len = q.len + 1;
  }
    where
      slot : ℕ
      slot = id_of d % q.capacity

  -- The slot that the oldest entry is counted in.
  abbrev pub front_slot : AckWaitList A → ℕ
  front_slot q = id_of (q.queue q.start) % q.capacity

  -- One round of the loop of `pop`.
  unfoldable pub pass_over : AckWaitList A → AckWaitList A
  pass_over q = record q {
    count_list = update q.count_list (front_slot q) (q.count_list (front_slot q) - 1);
    start = (q.start + 1) % q.capacity;
    len = q.len - 1;
  }

  -- `while (count_list[...] > 1)`, in at most `fuel` rounds.
  unfoldable pub skip : ℕ → AckWaitList A → AckWaitList A
  skip zero q = q
  skip (suc fuel) q = elim (ltb 1 (q.count_list (front_slot q))) [
    | true ↦ skip fuel (pass_over q)
    | false ↦ q
  ]

  -- What follows the loop.
  unfoldable pub take_front : AckWaitList A → Option A × AckWaitList A
  take_front q = (
    some (q.queue q.start),
    record q {
      start = (q.start + 1) % q.capacity;
      len = q.len - 1;
      count_list = update q.count_list (front_slot q) 0;
    },
  )

  unfoldable pub pop : AckWaitList A → Option A × AckWaitList A
  pop q = if leb q.len 0 then (none, q) else take_front (skip q.len q)
