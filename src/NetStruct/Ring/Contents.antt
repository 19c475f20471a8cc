-- ===== src/NetStruct/Ring/Contents.antt =====
-- A valid ring behaves as the queue of what it holds, while there is room.
use sharpvpn.Base.{
  ring_index_next, ℕ, suc, ◌+◌, ◌-◌, ◌%◌, ◌≤◌, ◌<◌, ◌≡◌, refl, ap, ◌∙◌, List, [], ◌∷◌, ◌++◌, some,
  arith, length, update, window, window_of_pos, window-update_end, ring_index_zero,
  ring_index_cases, update_self, Bool-cases, inl, inr, leb, leb_zero→eq, leb_zero_false→lt, true,
  false, sym, head?, drop,
}
use mathlib.Core.List.{append-nil, append_assoc}
use native.Mathlib.Nat.{mod-add-mod, add-mod_right, mod-eq_of_lt}
use sharpvpn.NetStruct.Ring.{
  Ring, init, push, pop, front, rebase, size, IsValid, contents, push_all,
}

module _ {ℓ} {A : Type ℓ} where
  pub init-IsValid : (memory : ℕ → A) (cap : ℕ) → 0 < cap → IsValid (init memory cap)
  unfolding init
  init-IsValid memory cap h = record {
    start_in = h;
    len_in = omega arith;
    end_at = omega (arith, ring_index_zero cap 0 h);
  }

  pub capacity-push : (r : Ring A) (x : A) → (push r x).capacity ≡ r.capacity
  unfolding push
  capacity-push r x = refl

  pub len-push : (r : Ring A) (x : A) → (push r x).len ≡ r.len + 1
  unfolding push
  len-push r x = refl

  pub push-IsValid : (r : Ring A) (x : A) → IsValid r → r.len < r.capacity → IsValid (push r x)
  unfolding push
  push-IsValid r x v h = record {
    start_in = v.start_in;
    len_in = omega arith;
    end_at =
        ap (λ k. (k + 1) % r.capacity) v.end_at
        ∙ mod-add-mod (r.start + r.len) r.capacity 1
        ∙ ap (λ k. k % r.capacity) (omega arith);
  }

  pub contents-push :
      (r : Ring A) (x : A)
      → IsValid r
      → r.len < r.capacity
      → contents (push r x) ≡ contents r ++ (x ∷ [])
  unfolding push
  contents-push r x v h = rw (v.end_at) (
      ap (window (update r.arr ((r.start + r.len) % r.capacity) x) r.capacity r.start) grown
      ∙ window-update_end r.arr r.capacity r.start r.len x v.start_in h)
    where
      grown : r.len + 1 ≡ suc r.len
      grown = omega arith

  -- An entry pushed where there is room goes to the end of the queue, and the ring stays valid.
  pub push_lem :
      (r : Ring A) (x : A)
      → IsValid r
      → r.len < r.capacity
      → IsValid (push r x) × (contents (push r x) ≡ contents r ++ (x ∷ []))
  push_lem r x v h = (push-IsValid r x v h, contents-push r x v h)

  pub advance-IsValid :
      (r : Ring A)
      → IsValid r
      → 0 < r.len
      → IsValid (record r { start = (r.start + 1) % r.capacity; len = r.len - 1 })
  advance-IsValid r v h = record {
    start_in = omega (arith, v.start_in);
    len_in = omega (arith, v.len_in);
    end_at = v.end_at ∙ sym (ring_index_next r.capacity r.start r.len h);
  }

  pub pop-IsValid : (r : Ring A) → IsValid r → IsValid (pop r).1
  unfolding pop
  pop-IsValid r v = elim (Bool-cases (leb r.len 0)) [
    | inl e ↦ rw e v
    | inr e ↦ rw e (advance-IsValid r v (leb_zero_false→lt r.len e))
  ]

  pub contents-empty : (r : Ring A) → leb r.len 0 ≡ true → contents r ≡ []
  contents-empty r e = ap (window r.arr r.capacity r.start) (leb_zero→eq r.len e)

  pub contents-cons :
      (r : Ring A)
      → leb r.len 0 ≡ false
      → contents r
        ≡ r.arr r.start ∷ window r.arr r.capacity ((r.start + 1) % r.capacity) (r.len - 1)
  contents-cons r e = window_of_pos r.arr r.capacity r.start r.len (leb_zero_false→lt r.len e)

  -- `pop` returns the oldest entry and removes it, or the null pointer if there is none; `front`
  -- returns what `pop` would.
  pub pop_lem :
      (r : Ring A)
      → IsValid r
      → ((pop r).0 ≡ head? (contents r))
        × (front r ≡ head? (contents r))
        × (contents (pop r).1 ≡ drop 1 (contents r))
        × IsValid (pop r).1
  unfolding pop front
  pop_lem r v = elim (Bool-cases (leb r.len 0)) [
    | inl e ↦ rw (e, contents-empty r e) (refl, refl, refl, v)
    | inr e ↦ rw (contents-cons r e, e) (refl, refl, refl, rw e at (pop-IsValid r v))
  ]

  pub rebase-IsValid : (r : Ring A) → IsValid r → IsValid (rebase r)
  unfolding rebase
  rebase-IsValid r v = record {
    start_in = end_in;
    len_in = omega arith;
    end_at = sym (ring_index_zero r.capacity r.end end_in);
  }
    where
      end_in : r.end < r.capacity
      end_in =
          omega (arith, ring_index_cases r.capacity r.start r.len v.start_in v.len_in, v.end_at)

  pub push_all-IsValid :
      (r : Ring A) (xs : List A)
      → IsValid r
      → r.len + length xs ≤ r.capacity
      → IsValid (push_all r xs)
  push_all-IsValid r [] v h = v
  push_all-IsValid r (x ∷ xs) v h =
      push_all-IsValid (push r x) xs (push-IsValid r x v (omega arith))
        (omega (arith, len-push r x, capacity-push r x))

  -- Entries pushed one after the other are held in that order, behind what was there.
  pub contents-push_all :
      (r : Ring A) (xs : List A)
      → IsValid r
      → r.len + length xs ≤ r.capacity
      → contents (push_all r xs) ≡ contents r ++ xs
  contents-push_all r [] v h = sym (append-nil (contents r))
  contents-push_all r (x ∷ xs) v h =
      contents-push_all (push r x) xs (push-IsValid r x v (omega arith))
        (omega (arith, len-push r x, capacity-push r x))
      ∙ ap (λ l. l ++ xs) (contents-push r x v (omega arith))
      ∙ append_assoc (contents r) (x ∷ []) xs

  -- There is no check for room: a push onto a full ring overwrites the oldest entry, so the next
  -- `pop` returns the newest in its place, and the ring counts more entries than it has places.
  pub pop-push_full :
      (r : Ring A) (x : A)
      → IsValid r
      → r.len ≡ r.capacity
      → ((pop (push r x)).0 ≡ some x) × (r.capacity < size (push r x))
  unfolding pop push size
  pop-push_full r x v h = ground (arith, full, update_self r.arr r.start x)
    where
      full : r.end ≡ r.start
      full =
          v.end_at
          ∙ ap (λ k. (r.start + k) % r.capacity) h
          ∙ add-mod_right r.start r.capacity
          ∙ mod-eq_of_lt v.start_in
