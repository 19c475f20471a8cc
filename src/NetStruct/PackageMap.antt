-- ===== src/NetStruct/PackageMap.antt =====
-- `PackageMap` of src/rudp/NetStruct.cpp: the receiver's table of packages, by id modulo the
-- capacity. A package is any value `A`; `freed` records, newest first, what `delete` was called on,
-- and changes nothing else.
pub mod Laws
mod Tests
use sharpvpn.Base.{
  ℕ, zero, suc, ◌+◌, ◌-◌, ◌%◌, ◌==◌, leb, if◌then◌else◌, update, List, [], ◌∷◌, Bool, true, false,
  ◌||◌, Option, none, some,
}

pub record PackageMap (A : Type 0) : Type 0 where
  pub data_pointer_list : ℕ → Option A
  pub capacity : ℕ
  pub arr_id : ℕ → ℕ
  pub head : ℕ
  pub tail : ℕ
  pub len : ℕ
  pub freed : List A

module _ {A : Type 0} where
  -- `delete` of a null pointer does nothing.
  abbrev pub delete : Option A → List A → List A
  delete none freed = freed
  delete (some d) freed = d ∷ freed

  unfoldable pub init : ℕ → PackageMap A
  init arr_size = record {
    data_pointer_list = λ _. none;
    capacity = arr_size;
    arr_id = λ _. 0;
    head = 1;
    tail = 1;
    len = 0;
    freed = [];
  }

  unfoldable pub find : PackageMap A → ℕ → Option A
  find m index =
      if m.arr_id (index % m.capacity) == index
      then m.data_pointer_list (index % m.capacity)
      else none

  -- `operator[]`: whatever package the slot holds.
  unfoldable pub at : PackageMap A → ℕ → Option A
  at m index = m.data_pointer_list (index % m.capacity)

  unfoldable pub set : PackageMap A → ℕ → A → PackageMap A
  set m index d = record m {
    freed = if m.arr_id slot == 0 then m.freed else delete (m.data_pointer_list slot) m.freed;
    arr_id = update m.arr_id slot index;
    data_pointer_list = update m.data_pointer_list slot (some d);
  }
    where
      slot : ℕ
      slot = index % m.capacity

  -- The slot keeps the pointer to the package that was deleted.
  unfoldable pub erase : PackageMap A → ℕ → PackageMap A
  erase m index =
      if m.arr_id slot == index
      then record m {
        arr_id = update m.arr_id slot 0;
        freed = delete (m.data_pointer_list slot) m.freed;
      }
      else m
    where
      slot : ℕ
      slot = index % m.capacity

  -- `push` waits, with the mutex released, while this holds.
  unfoldable pub push_waits : PackageMap A → ℕ → Bool
  push_waits m package_id =
      leb m.capacity m.len || (if m.arr_id (package_id % m.capacity) == 0 then false else true)

  -- What `push` does once it need not wait.
  unfoldable pub push : PackageMap A → ℕ → A → PackageMap A
  push m package_id d = record m {
    freed = delete (m.data_pointer_list m.tail) m.freed;
    data_pointer_list = update m.data_pointer_list m.tail (some d);
    arr_id = update m.arr_id m.tail package_id;
    tail = (m.tail + 1) % m.capacity;
    len = m.len + 1;
  }

  unfoldable pub pop : PackageMap A → Option A × PackageMap A
  pop m = if leb m.len 0 then (none, m) else (
    m.data_pointer_list m.head,
    record m { head = (m.head + 1) % m.capacity; len = m.len - 1 },
  )

  -- The loop of `de_init`, over the slots below `i`.
  abbrev pub free_below : ℕ → (ℕ → Option A) → List A → List A
  free_below zero slots freed = freed
  free_below (suc i) slots freed = delete (slots i) (free_below i slots freed)

  unfoldable pub de_init : PackageMap A → PackageMap A
  de_init m = record m { freed = free_below m.capacity m.data_pointer_list m.freed }
