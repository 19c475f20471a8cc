-- ===== src/NetStruct/AckWaitList/Refine.antt =====
-- The cyclic array with its counts implements `settle`: the loop of `pop` ends by its test, and
-- leaves the counts right.
use sharpvpn.Base.{
  ℕ, zero, suc, ◌+◌, ◌-◌, ◌%◌, ◌≤◌, ◌<◌, ◌≡◌, refl, sym, ap, ◌∙◌, List, [], ◌∷◌, ◌++◌, Option, none,
  arith, update, window, window_of_pos, window-update_end, ring_index_zero, ring_index_next,
  ℕ-cases, inl, inr, lt→ltb, le→ltb_false, length-window,
}
use native.Mathlib.Nat.{mod-add-mod}
use sharpvpn.NetStruct.AckWaitList.{
  AckWaitList, init, push, front_slot, pass_over, skip, take_front, pop,
}
use sharpvpn.NetStruct.AckWaitList.Settle.{
  occurrences, settle, occurrences-append, occurrences-le-length,
}

-- The packages that wait, oldest first.
abbrev pub contents : {A : Type 0} → AckWaitList A → List A
contents q = window q.queue q.capacity q.start q.len

module _ {A : Type 0} (id_of : A → ℕ) where
  -- Packages are counted by id modulo the capacity.
  abbrev pub slot_of : ℕ → A → ℕ
  slot_of cap d = id_of d % cap

  pub record IsValid (q : AckWaitList A) : Type 0 where
    pub start_in : q.start < q.capacity
    pub len_in : q.len ≤ q.capacity
    pub end_at : q.end ≡ (q.start + q.len) % q.capacity
    pub counts : (s : ℕ) → q.count_list s ≡ occurrences (slot_of q.capacity) s (contents q)

  pub init-IsValid : (memory : ℕ → A) (cap : ℕ) → 0 < cap → IsValid (init memory cap)
  unfolding init
  init-IsValid memory cap h = record {
    start_in = h;
    len_in = omega arith;
    end_at = sym (ring_index_zero cap 0 h);
    counts = λ s. refl;
  }

  contents-push :
      (q : AckWaitList A) (d : A)
      → IsValid q
      → q.len < q.capacity
      → contents (push id_of q d) ≡ contents q ++ (d ∷ [])
  unfolding push
  contents-push q d v h = rw (v.end_at) (
      ap (window (update q.queue ((q.start + q.len) % q.capacity) d) q.capacity q.start) grown
      ∙ window-update_end q.queue q.capacity q.start q.len d v.start_in h)
    where
      grown : q.len + 1 ≡ suc q.len
      grown = omega arith

  push-counts :
      (q : AckWaitList A) (d : A) (s : ℕ)
      → IsValid q
      → q.len < q.capacity
      → (push id_of q d).count_list s
        ≡ occurrences (slot_of q.capacity) s (contents (push id_of q d))
  push-counts q d s v h =
      rw (contents-push q d v h, occurrences-append (slot_of q.capacity) s (contents q) (d ∷ []))
        (unfold push in ground (arith, v.counts s, v.counts (id_of d % q.capacity)))

  -- A package pushed where there is room waits behind the others, and is counted.
  pub push_refines :
      (q : AckWaitList A) (d : A)
      → IsValid q
      → q.len < q.capacity
      → IsValid (push id_of q d) × (contents (push id_of q d) ≡ contents q ++ (d ∷ []))
  unfolding push
  push_refines q d v h = (
    record {
      start_in = v.start_in;
      len_in = omega arith;
      end_at =
          ap (λ k. (k + 1) % q.capacity) v.end_at
          ∙ mod-add-mod (q.start + q.len) q.capacity 1
          ∙ ap (λ k. k % q.capacity) (omega arith);
      counts = λ s. push-counts q d s v h;
    },
    contents-push q d v h,
  )

  pub tail_of : AckWaitList A → List A
  tail_of q = window q.queue q.capacity ((q.start + 1) % q.capacity) (q.len - 1)

  contents-cons : (q : AckWaitList A) → 0 < q.len → contents q ≡ q.queue q.start ∷ tail_of q
  unfolding tail_of
  contents-cons q h = window_of_pos q.queue q.capacity q.start q.len h

  pass_over-counts :
      (q : AckWaitList A) (s : ℕ)
      → IsValid q
      → 0 < q.len
      → (pass_over id_of q).count_list s ≡ occurrences (slot_of q.capacity) s (tail_of q)
  unfolding pass_over
  pass_over-counts q s v h = ground (
    arith,
    v.counts s,
    v.counts (front_slot id_of q),
    ap (occurrences (slot_of q.capacity) s) (contents-cons q h),
    ap (occurrences (slot_of q.capacity) (front_slot id_of q)) (contents-cons q h),
  )

  pass_over-IsValid : (q : AckWaitList A) → IsValid q → 0 < q.len → IsValid (pass_over id_of q)
  unfolding pass_over tail_of
  pass_over-IsValid q v h = record {
    start_in = omega (arith, v.start_in);
    len_in = omega (arith, v.len_in);
    end_at = v.end_at ∙ sym (ring_index_next q.capacity q.start q.len h);
    counts = λ s. pass_over-counts q s v h;
  }

  take_front-IsValid :
      (q : AckWaitList A)
      → IsValid q
      → 0 < q.len
      → occurrences (slot_of q.capacity) (front_slot id_of q) (tail_of q) ≡ 0
      → IsValid (take_front id_of q).1
  unfolding take_front pass_over tail_of
  take_front-IsValid q v h last = record {
    start_in = omega (arith, v.start_in);
    len_in = omega (arith, v.len_in);
    end_at = v.end_at ∙ sym (ring_index_next q.capacity q.start q.len h);
    counts = λ s.
        ground (arith, last, pass_over-counts q s v h, pass_over-counts q (front_slot id_of q) v h);
  }

  -- What `pop` promises of the list that waits.
  pub record Settles (waiting : List A) (cap : ℕ) (r : Option A × AckWaitList A) : Type 0 where
    pub taken : r.0 ≡ (settle (slot_of cap) waiting).0
    pub left : contents r.1 ≡ (settle (slot_of cap) waiting).1
    pub valid : IsValid r.1

  front_count :
      (q : AckWaitList A)
      → IsValid q
      → 0 < q.len
      → q.count_list (front_slot id_of q)
        ≡ suc (occurrences (slot_of q.capacity) (front_slot id_of q) (tail_of q))
  front_count q v h = ground (
    arith,
    v.counts (front_slot id_of q),
    ap (occurrences (slot_of q.capacity) (front_slot id_of q)) (contents-cons q h),
  )

  empty-Settles :
      (q : AckWaitList A) → IsValid q → q.len ≡ 0 → Settles (contents q) q.capacity (none, q)
  unfolding settle
  empty-Settles q v e =
      let empty : contents q ≡ [] = ap (window q.queue q.capacity q.start) e in
      record { taken = rw empty; left = rw empty; valid = v }

  -- The loop ends at a package that does not wait again.
  stop-Settles :
      (q : AckWaitList A)
      → IsValid q
      → 0 < q.len
      → occurrences (slot_of q.capacity) (front_slot id_of q) (tail_of q) ≡ 0
      → Settles (contents q) q.capacity (take_front id_of q)
  stop-Settles q v h last = rw (contents-cons q h) (record {
    taken = unfold settle take_front in rw last;
    left = unfold settle take_front tail_of in rw last;
    valid = take_front-IsValid q v h last;
  })

  -- Passing over one that waits again does not change what is settled.
  settle-pass_over :
      (q : AckWaitList A) (k : ℕ)
      → 0 < q.len
      → occurrences (slot_of q.capacity) (front_slot id_of q) (tail_of q) ≡ suc k
      → settle (slot_of q.capacity) (contents q) ≡ settle (slot_of q.capacity) (tail_of q)
  settle-pass_over q k h again = rw (contents-cons q h) (unfold settle in ground (arith, again))

  skip-again :
      (fuel : ℕ) (q : AckWaitList A)
      → 1 < q.count_list (front_slot id_of q)
      → skip id_of (suc fuel) q ≡ skip id_of fuel (pass_over id_of q)
  unfolding skip
  skip-again fuel q h = rw (lt→ltb 1 _ h, skip)

  skip-stop :
      (fuel : ℕ) (q : AckWaitList A)
      → q.count_list (front_slot id_of q) ≤ 1
      → skip id_of (suc fuel) q ≡ q
  unfolding skip
  skip-stop fuel q h = rw (le→ltb_false 1 _ h, skip)

  again-Settles :
      (fuel k : ℕ) (q : AckWaitList A)
      → IsValid q
      → 0 < q.len
      → occurrences (slot_of q.capacity) (front_slot id_of q) (tail_of q) ≡ suc k
      → Settles (tail_of q) q.capacity (take_front id_of (skip id_of fuel (pass_over id_of q)))
      → Settles (contents q) q.capacity (take_front id_of (skip id_of (suc fuel) q))
  again-Settles fuel k q v h again rest =
      rw (skip-again fuel q (omega (arith, front_count q v h))) (record {
        taken = rw (settle-pass_over q k h again) rest.taken;
        left = rw (settle-pass_over q k h again) rest.left;
        valid = rest.valid;
      })

  last-Settles :
      (fuel : ℕ) (q : AckWaitList A)
      → IsValid q
      → 0 < q.len
      → occurrences (slot_of q.capacity) (front_slot id_of q) (tail_of q) ≡ 0
      → Settles (contents q) q.capacity (take_front id_of (skip id_of (suc fuel) q))
  last-Settles fuel q v h last =
      rw (skip-stop fuel q (omega (arith, front_count q v h))) (stop-Settles q v h last)

  tail-again :
      (q : AckWaitList A) (s k : ℕ)
      → occurrences (slot_of q.capacity) s (tail_of q) ≡ suc k
      → 1 < q.len
  unfolding tail_of
  tail-again q s k e = omega (
    arith,
    occurrences-le-length (slot_of q.capacity) s (tail_of q),
    length-window q.queue q.capacity ((q.start + 1) % q.capacity) (q.len - 1),
  )

  -- The loop, by the number of packages that wait.
  skip-Settles :
      (n : ℕ) (q : AckWaitList A)
      → q.len ≡ suc n
      → IsValid q
      → Settles (contents q) q.capacity (take_front id_of (skip id_of (suc n) q))
  unfolding pass_over tail_of
  skip-Settles zero q e v = elim (ℕ-cases _) [
    | inl last ↦ last-Settles 0 q v (omega arith) last
    | inr (k, again) ↦ absurd (omega (arith, tail-again q (front_slot id_of q) k again))
  ]
  skip-Settles (suc n) q e v = elim (ℕ-cases _) [
    | inl last ↦ last-Settles (suc n) q v (omega arith) last
    | inr (k, again) ↦
        again-Settles (suc n) k q v (omega arith) again
          (skip-Settles n (pass_over id_of q) (omega arith) (pass_over-IsValid q v (omega arith)))
  ]

  pop-empty : (q : AckWaitList A) → q.len ≡ 0 → pop id_of q ≡ (none, q)
  unfolding pop
  pop-empty q e = ground (arith, e)

  pop-some :
      (q : AckWaitList A) (n : ℕ)
      → q.len ≡ suc n
      → pop id_of q ≡ take_front id_of (skip id_of (suc n) q)
  pop-some q n e = opened ∙ ap (λ k. take_front id_of (skip id_of k q)) e
    where
      opened : pop id_of q ≡ take_front id_of (skip id_of q.len q)
      opened = unfold pop in ground (arith, e)

  -- `pop` of an empty list returns the null pointer and changes nothing; of any other it returns
  -- and leaves what `settle` does, so the loop ends by its test within the list, and the counts
  -- stay right.
  pub pop_refines : (q : AckWaitList A) → IsValid q → Settles (contents q) q.capacity (pop id_of q)
  pop_refines q v = elim (ℕ-cases q.len) [
    | inl e ↦ rw (pop-empty q e) (empty-Settles q v e)
    | inr (n, e) ↦ rw (pop-some q n e) (skip-Settles n q e v)
  ]
