-- ===== src/NetStruct/PackageQueueMap.antt =====
-- `PackageQueueMap` of src/rudp/NetStruct.cpp: the packages to send, by id modulo the capacity, the
-- queue of ids that were not sent yet, and the queue of ids to send again, which goes first.
-- `ref` counts the reasons to keep a package. A package is any value `A`; `freed` records, newest
-- first, what `delete` was called on, and changes nothing else.
pub mod Queues
pub mod References
mod Tests
use sharpvpn.Base.{
  ℕ, ◌+◌, ◌-◌, ◌*◌, ◌%◌, ◌==◌, leb, if◌then◌else◌, update, List, [], ◌∷◌, true, false, ◌&&◌, Option,
  none, some, ℤ, pos, inc, dec, is_pos,
}

pub record PackageQueueMap (A : Type 0) : Type 0 where
  pub queue : ℕ → ℕ
  pub resend_queue : ℕ → ℕ
  pub arr : ℕ → ℕ
  pub ref : ℕ → ℤ
  pub len : ℕ
  pub resend_len : ℕ
  pub capacity : ℕ
  pub data_list : ℕ → Option A
  pub start : ℕ
  pub end : ℕ
  pub resend_start : ℕ
  pub resend_end : ℕ
  pub freed : List A

module _ {A : Type 0} where
  abbrev delete : Option A → List A → List A
  delete none freed = freed
  delete (some d) freed = d ∷ freed

  unfoldable pub init : ℕ → PackageQueueMap A
  init cap = record {
    queue = λ _. 0;
    resend_queue = λ _. 0;
    arr = λ _. 0;
    ref = λ _. pos 0;
    len = 0;
    resend_len = 0;
    capacity = cap;
    data_list = λ _. none;
    start = 0;
    end = 0;
    resend_start = 0;
    resend_end = 0;
    freed = [];
  }

  -- `operator[]`
  unfoldable pub at : PackageQueueMap A → ℕ → Option A
  at q id = if q.arr (id % q.capacity) == id then q.data_list (id % q.capacity) else none

  -- `push(data, id)`
  unfoldable pub push : PackageQueueMap A → A → ℕ → PackageQueueMap A
  push q d id = record q {
    queue = update q.queue q.end id;
    end = (q.end + 1) % (2 * q.capacity);
    freed = if q.arr slot == 0 then q.freed else delete (q.data_list slot) q.freed;
    data_list = update q.data_list slot (some d);
    arr = update q.arr slot id;
    ref = update q.ref slot (pos 1);
    len = q.len + 1;
  }
    where
      slot : ℕ
      slot = id % q.capacity

  unfoldable pub erase : PackageQueueMap A → ℕ → PackageQueueMap A
  erase q id =
      if q.arr slot == id
      then (if is_pos (dec (q.ref slot))
          then record q { ref = update q.ref slot (dec (q.ref slot)) }
          else record q {
            ref = update q.ref slot (dec (q.ref slot));
            freed = delete (q.data_list slot) q.freed;
            arr = update q.arr slot 0;
          })
      else q
    where
      slot : ℕ
      slot = id % q.capacity

  -- `push(id)`: the package is to be sent again.
  unfoldable pub resend : PackageQueueMap A → ℕ → PackageQueueMap A
  resend q id = record q {
    resend_queue = update q.resend_queue q.resend_end id;
    resend_end = (q.resend_end + 1) % q.capacity;
    ref = update q.ref (id % q.capacity) (inc (q.ref (id % q.capacity)));
    resend_len = q.resend_len + 1;
  }

  unfoldable pub pop : PackageQueueMap A → Option A × PackageQueueMap A
  pop q =
      if leb q.len 0 && leb q.resend_len 0
      then (none, q)
      else (if leb q.resend_len 0
          then (
            at q (q.queue q.start),
            record q { start = (q.start + 1) % (2 * q.capacity); len = q.len - 1 },
          )
          else (
            at q (q.resend_queue q.resend_start),
            record q {
              resend_start = (q.resend_start + 1) % q.capacity;
              resend_len = q.resend_len - 1;
            },
          ))

  unfoldable pub size : PackageQueueMap A → ℕ
  size q = q.resend_len + q.len
