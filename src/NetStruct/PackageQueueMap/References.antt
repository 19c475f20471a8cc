-- ===== src/NetStruct/PackageQueueMap/References.antt =====
-- How long the table keeps a package: the counts of `ref`.
use sharpvpn.Base.{
  ℕ, zero, suc, ◌+◌, ◌-◌, ◌%◌, ◌≤◌, ◌≡◌, ◌≢◌, refl, ap, ◌∙◌, ◌∷◌, none, some, arith, ◌==◌,
  if◌then◌else◌, pos,
}
use native.Mathlib.Nat.{zero-add}
use sharpvpn.NetStruct.PackageQueueMap.{PackageQueueMap, at, push, resend, erase}

module _ {A : Type 0} where
  -- A push gives the slot to the new id, and changes no other lookup.
  pub at-push :
      (q : PackageQueueMap A) (d : A) (id i : ℕ)
      → at (push q d id) i
        ≡ (if id % q.capacity == i % q.capacity then (if id == i then some d else none) else at q i)
  unfolding at push
  at-push q d id i = ground arith

  pub at-resend : (q : PackageQueueMap A) (id i : ℕ) → at (resend q id) i ≡ at q i
  unfolding at resend
  at-resend q id i = refl

  -- The slot of `id` holds its package `d` with `n + 1` reasons to keep it.
  pub record Held (q : PackageQueueMap A) (id : ℕ) (d : A) (n : ℕ) : Type 0 where
    pub owner : q.arr (id % q.capacity) ≡ id
    pub holds : q.data_list (id % q.capacity) ≡ some d
    pub refs : q.ref (id % q.capacity) ≡ pos (suc n)

  push-Held : (q : PackageQueueMap A) (d : A) (id : ℕ) → Held (push q d id) id d 0
  unfolding push
  push-Held q d id = ground arith

  resend-Held :
      (q : PackageQueueMap A) (d : A) (id n : ℕ) → Held q id d n → Held (resend q id) id d (suc n)
  unfolding resend
  resend-Held q d id n h = ground arith

  erase-Held :
      (q : PackageQueueMap A) (d : A) (id n : ℕ)
      → Held q id d (suc n)
      → Held (erase q id) id d n × ((erase q id).freed ≡ q.freed)
  unfolding erase
  erase-Held q d id n h = ground arith

  unfoldable pub resend_times : ℕ → PackageQueueMap A → ℕ → PackageQueueMap A
  resend_times zero q id = q
  resend_times (suc k) q id = resend (resend_times k q id) id

  unfoldable pub erase_times : ℕ → PackageQueueMap A → ℕ → PackageQueueMap A
  erase_times zero q id = q
  erase_times (suc k) q id = erase_times k (erase q id) id

  resend_times-Held :
      (k : ℕ) (q : PackageQueueMap A) (d : A) (id : ℕ)
      → Held q id d 0
      → Held (resend_times k q id) id d k × ((resend_times k q id).freed ≡ q.freed)
  unfolding resend_times resend
  resend_times-Held zero q d id h = (h, refl)
  resend_times-Held (suc k) q d id h =
      let before = resend_times-Held k q d id h in
      (resend-Held (resend_times k q id) d id k before.0, before.1)

  erase_times-Held :
      (n k : ℕ) (q : PackageQueueMap A) (d : A) (id : ℕ)
      → Held q id d (n + k)
      → Held (erase_times n q id) id d k × ((erase_times n q id).freed ≡ q.freed)
  unfolding erase_times
  erase_times-Held zero k q d id h = (rw zero-add at h, refl)
  erase_times-Held (suc n) k q d id h =
      let shorter : suc n + k ≡ suc (n + k) = omega arith in
      let one = erase-Held q d id (n + k) (rw shorter at h) in
      let rest = erase_times-Held n k (erase q id) d id one.0 in (rest.0, rest.1 ∙ one.1)

  -- The last reference gone, the package is deleted and no longer found.
  last-erase :
      (q : PackageQueueMap A) (d : A) (id : ℕ)
      → id ≢ 0
      → Held q id d 0
      → (at (erase q id) id ≡ none) × ((erase q id).freed ≡ d ∷ q.freed)
  unfolding erase at
  last-erase q d id h w = ground (arith, w.owner, w.holds, w.refs)

  at-Held : (q : PackageQueueMap A) (d : A) (id n : ℕ) → Held q id d n → at q id ≡ some d
  unfolding at
  at-Held q d id n h = ground arith

  -- A package that was put in and asked to be sent again `k` times survives `k` calls of `erase`,
  -- without being deleted; one more call deletes it, once, and it is no longer found.
  pub erase_times-resend_times :
      (k n : ℕ) (q : PackageQueueMap A) (d : A) (id : ℕ)
      → id ≢ 0
      → n ≤ k
      → let p = push q d id in
        let r = resend_times k p id in
        (at (erase_times n r id) id ≡ some d)
        × ((erase_times n r id).freed ≡ p.freed)
        × (at (erase (erase_times k r id) id) id ≡ none)
        × ((erase (erase_times k r id) id).freed ≡ d ∷ p.freed)
  erase_times-resend_times k n q d id h le =
      let p = push q d id in
      let r = resend_times k p id in
      let full = resend_times-Held k p d id (push-Held q d id) in
      let split : k ≡ n + (k - n) = omega arith in
      let all : k ≡ k + 0 = omega arith in
      let some_gone = erase_times-Held n (k - n) r d id (rw (← split) full.0) in
      let one_left = erase_times-Held k 0 r d id (rw (← all) full.0) in
      let gone = last-erase (erase_times k r id) d id h one_left.0 in
      (
        at-Held (erase_times n r id) d id (k - n) some_gone.0,
        some_gone.1 ∙ full.1,
        gone.0,
        gone.1 ∙ ap (◌∷◌ d) (one_left.1 ∙ full.1),
      )
