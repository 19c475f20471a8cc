-- ===== src/NetStruct/Ring/Handoff.antt =====
-- The ack sender and the segment thread copy the shared queue under its mutex, `rebase` the
-- original and read the copy with the mutex released. The copy constructor shares the array, so
-- the threads that push meanwhile write to the array which the copy is read from.
use sharpvpn.Base.{
  ℕ, suc, ◌+◌, ◌%◌, ◌≤◌, ◌<◌, ◌≡◌, refl, ap, ◌∙◌, List, [], ◌∷◌, arith, length, window,
  window-update_past,
}
use native.Mathlib.Nat.{mod-add-mod}
use sharpvpn.NetStruct.Ring.{Ring, push, rebase, IsValid, contents, push_all}
use sharpvpn.NetStruct.Ring.Contents.{rebase-IsValid, contents-push_all}

module _ {ℓ} {A : Type ℓ} where
  -- The copy that was taken of `r`, read after the original has grown into `later`.
  abbrev pub copy_of : Ring A → Ring A → Ring A
  copy_of r later = record r { arr = later.arr }

  push_all-keeps :
      (r : Ring A) (xs : List A) (h n k : ℕ)
      → h < r.capacity
      → n ≤ k
      → k + length xs ≤ r.capacity
      → r.end ≡ (h + k) % r.capacity
      → window (push_all r xs).arr r.capacity h n ≡ window r.arr r.capacity h n
  unfolding push
  push_all-keeps r [] h n k hh hn hk e = refl
  push_all-keeps r (x ∷ xs) h n k hh hn hk e =
      push_all-keeps (push r x) xs h n (suc k) hh (omega arith) (omega arith) (
        ap (λ i. (i + 1) % r.capacity) e
        ∙ mod-add-mod (h + k) r.capacity 1
        ∙ ap (λ i. i % r.capacity) (omega arith))
      ∙ rw e (window-update_past r.arr r.capacity h n k x hh hn (omega arith))

  -- Nothing is lost or doubled across a hand-over: while what is pushed after it fits beside the
  -- copied entries, the copy still shows exactly the old entries and the rebased ring exactly the
  -- new ones, both in order.
  pub handoff_lem :
      (r : Ring A) (xs : List A)
      → IsValid r
      → r.len + length xs ≤ r.capacity
      → let later = push_all (rebase r) xs in
        (contents (copy_of r later) ≡ contents r) × (contents later ≡ xs)
  unfolding rebase
  handoff_lem r xs v h = (
    push_all-keeps (rebase r) xs r.start r.len r.len v.start_in (omega arith) h v.end_at,
    contents-push_all (rebase r) xs (rebase-IsValid r v) (omega arith),
  )
