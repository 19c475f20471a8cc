-- ===== src/Base/Arrays.antt =====
-- A C array as a function of the index: a write is `update`. Where an index stays in bounds is a
-- theorem of the module that computes it.
use Prim.Native.Nat.{ℕ, zero, suc, ◌+◌, ◌-◌, ◌%◌, ◌≤◌, ◌<◌}
use mathlib.Core.Path.{◌≡◌, refl, sym, ap, ap₂, ◌∙◌}
use mathlib.Core.Logic.{◌≢◌, ◌⊎◌, inl, inr}
use mathlib.Core.List.{List, [], ◌∷◌, ◌++◌}
use native.Mathlib.Omega.{arith}
use native.Mathlib.Decide.{dec_lt}
use native.Mathlib.Nat.{mod-add-mod, mod-eq_of_lt, mod-eq-sub-mod, add-zero}
use sharpvpn.Base.Tests.{◌==◌, if◌then◌else◌}
use sharpvpn.Base.Lists.{length}

module _ {ℓ} {A : Type ℓ} where
  abbrev pub update : (ℕ → A) → ℕ → A → ℕ → A
  update f i v j = if i == j then v else f j

  pub update_self : (f : ℕ → A) (i : ℕ) (v : A) → update f i v i ≡ v
  update_self f i v = ground arith

  pub update_ne : (f : ℕ → A) (i j : ℕ) (v : A) → i ≢ j → update f i v j ≡ f j
  update_ne f i j v h = ground arith

  -- the `n` entries from index `h` on, going round at `cap`
  abbrev pub window : (ℕ → A) → ℕ → ℕ → ℕ → List A
  window f cap h zero = []
  window f cap h (suc n) = f h ∷ window f cap ((h + 1) % cap) n

-- The index `k` steps round from `h` is `h + k`, or has gone round once.
pub ring_index_cases :
    (cap h k : ℕ)
    → h < cap
    → k ≤ cap
    → ((h + k < cap) × ((h + k) % cap ≡ h + k)) ⊎ ((cap ≤ h + k) × ((h + k) % cap + cap ≡ h + k))
ring_index_cases cap h k hh hk = elim (dec_lt (h + k) cap) [
  | yes p ↦ inl (p, mod-eq_of_lt p)
  | no p ↦ inr (
    omega arith,
    omega (
      arith,
      mod-eq-sub-mod {n = h + k} {m = cap} (omega arith),
      mod-eq_of_lt {n = h + k - cap} {m = cap} (omega arith),
    ),
  )
]

-- Two places less than a whole turn apart are different.
pub ring_index_ne : (cap h i j : ℕ) → h < cap → i < j → j < cap → (h + i) % cap ≢ (h + j) % cap
ring_index_ne cap h i j hh hi hj =
    omega
      (arith, ring_index_cases cap h i hh (omega arith), ring_index_cases cap h j hh (omega arith))

pub ring_index_zero : (cap h : ℕ) → h < cap → (h + 0) % cap ≡ h
ring_index_zero cap h hh = rw (add-zero, mod-eq_of_lt hh)

pub ring_index_suc : (cap h n : ℕ) → ((h + 1) % cap + n) % cap ≡ (h + suc n) % cap
ring_index_suc cap h n = rw mod-add-mod (ap (λ k. k % cap) (omega arith))

-- Taking the first entry of a window leaves its end where it was.
pub ring_index_next : (cap h n : ℕ) → 0 < n → ((h + 1) % cap + (n - 1)) % cap ≡ (h + n) % cap
ring_index_next cap h n p = ring_index_suc cap h (n - 1) ∙ ap (λ k. (h + k) % cap) (omega arith)

module _ {ℓ} {A : Type ℓ} where
  pub length-window : (f : ℕ → A) (cap h n : ℕ) → length (window f cap h n) ≡ n
  length-window f cap h zero = refl
  length-window f cap h (suc n) = ap suc (length-window f cap ((h + 1) % cap) n)

  -- `window` matches on `suc`, the code counts down.
  pub window_of_pos :
      (f : ℕ → A) (cap h n : ℕ)
      → 0 < n
      → window f cap h n ≡ f h ∷ window f cap ((h + 1) % cap) (n - 1)
  window_of_pos f cap h zero p = absurd (omega arith)
  window_of_pos f cap h (suc n) p = ap (λ k. window f cap h (suc k)) (omega arith)

  -- Two arrays that agree on the places of a window show the same window.
  pub window_congr :
      (f g : ℕ → A) (cap h n : ℕ)
      → h < cap
      → ((k : ℕ) → k < n → f ((h + k) % cap) ≡ g ((h + k) % cap))
      → window f cap h n ≡ window g cap h n
  window_congr f g cap h zero hh e = refl
  window_congr f g cap h (suc n) hh e =
      ap₂ ◌∷◌ (rw (ring_index_zero cap h hh) at (e 0 (omega arith))) (
        window_congr f g cap ((h + 1) % cap) n (omega arith)
          λ k hk. rw (ring_index_suc cap h k) (e (suc k) (omega arith)))

  pub window-snoc :
      (f : ℕ → A) (cap h n : ℕ)
      → h < cap
      → window f cap h (suc n) ≡ window f cap h n ++ (f ((h + n) % cap) ∷ [])
  window-snoc f cap h zero hh = rw (ring_index_zero cap h hh)
  window-snoc f cap h (suc n) hh =
      ap (◌∷◌ (f h))
        (rw (← ring_index_suc cap h n) (window-snoc f cap ((h + 1) % cap) n (omega arith)))

  -- A write at `k` steps from `h` does not show in a window that ends before it.
  pub window-update_past :
      (f : ℕ → A) (cap h n k : ℕ) (v : A)
      → h < cap
      → n ≤ k
      → k < cap
      → window (update f ((h + k) % cap) v) cap h n ≡ window f cap h n
  window-update_past f cap h n k v hh hn hk = window_congr _ f cap h n hh λ i hi.
      update_ne f ((h + k) % cap) ((h + i) % cap) v
        (λ e. ring_index_ne cap h i k hh (omega arith) hk (sym e))

  -- A write just past a window extends it.
  pub window-update_end :
      (f : ℕ → A) (cap h n : ℕ) (v : A)
      → h < cap
      → n < cap
      → window (update f ((h + n) % cap) v) cap h (suc n) ≡ window f cap h n ++ (v ∷ [])
  window-update_end f cap h n v hh hn =
      window-snoc (update f ((h + n) % cap) v) cap h n hh
      ∙ ap₂ (λ l x. l ++ (x ∷ [])) (window-update_past f cap h n n v hh (omega arith) hn)
          (update_self f ((h + n) % cap) v)
