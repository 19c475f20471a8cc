-- ===== src/NetStruct/Ring/Queue.antt =====
-- The rings of one capacity up to what they hold. Where the entries stand in the array, and what
-- the free places hold, is forgotten.
use sharpvpn.Base.{
  ℕ, ◌≤◌, ◌<◌, ◌≡◌, refl, ◌∙◌, List, [], ◌∷◌, ◌++◌, length, drop, head?, arith, length-window,
}
use mathlib.Core.Equiv.{IsEquiv, Iso, iso_to_equiv}
use mathlib.Core.HLevel.{Σ_prop_path}
use mathlib.Core.List
use mathlib.Core.Quot
use mathlib.Core.Quot.{Quot, Quot-set}
use native.Mathlib.Bridge.{le_prop}
use sharpvpn.NetStruct.Ring.{Ring, init, push, pop, IsValid, contents, push_all}
use sharpvpn.NetStruct.Ring.Contents.{
  init-IsValid, push_lem, pop_lem, push_all-IsValid, contents-push_all, capacity-push,
}

module _ (A : Type 0) (cap : ℕ) where
  abbrev pub RingOf : Type 0
  RingOf = (r : Ring A) × IsValid r × (r.capacity ≡ cap)

  abbrev pub SameContents : RingOf → RingOf → Type 0
  SameContents r s = contents r.0 ≡ contents s.0

  abbrev pub Queue : Type 0
  Queue = Quot SameContents

  -- A list that the capacity has room for.
  abbrev pub Bounded : Type 0
  Bounded = (xs : List A) × (length xs ≤ cap)

module _ {A : Type 0} (set : IsSet A) (cap : ℕ) where
  unfoldable pub held : Queue A cap → Bounded A cap
  held =
      Quot.lift (hlevel (List.is_set set, le_prop))
        (λ r. (
          contents r.0,
          omega (arith, length-window r.0.arr r.0.capacity r.0.start r.0.len, r.1.len_in, r.2),
        ))
        (λ r s e. Σ_prop_path (λ xs. le_prop) e)

module _ {A : Type 0} (memory : ℕ → A) (cap : ℕ) (pos : 0 < cap) where
  -- The ring that holds a list from its first place on.
  filled-IsValid : (xs : Bounded A cap) → IsValid (push_all (init memory cap) xs.0)
  unfolding init
  filled-IsValid xs =
      push_all-IsValid (init memory cap) xs.0 (init-IsValid memory cap pos) (omega (arith, xs.1))

  capacity-push_all : (r : Ring A) (xs : List A) → (push_all r xs).capacity ≡ r.capacity
  capacity-push_all r [] = refl
  capacity-push_all r (x ∷ xs) = capacity-push_all (push r x) xs ∙ capacity-push r x

  filled : Bounded A cap → RingOf A cap
  unfolding init
  filled xs =
      (push_all (init memory cap) xs.0, filled-IsValid xs, capacity-push_all (init memory cap) xs.0)

  contents-filled : (xs : Bounded A cap) → contents (filled xs).0 ≡ xs.0
  unfolding filled init
  contents-filled xs =
      contents-push_all (init memory cap) xs.0 (init-IsValid memory cap pos) (omega (arith, xs.1))

  abbrev queue_iso : (set : IsSet A) → Iso (Queue A cap) (Bounded A cap)
  unfolding held
  queue_iso set = record {
    fun = held set cap;
    inv = λ xs. Quot.mk (filled xs);
    rinv = λ xs. Σ_prop_path (λ ys. le_prop) (contents-filled xs);
    linv = Quot.ind (λ q. Quot-set _ _) (λ r. Quot.sound (contents-filled (contents r.0, _)));
  }

-- `push` and `pop` on the rings of one capacity.
abbrev pub pushed : {A : Type 0} {cap : ℕ} (r : RingOf A cap) (x : A) → r.0.len < cap → RingOf A cap
pushed r x h =
    (push r.0 x, (push_lem r.0 x r.1 (omega (arith, h, r.2))).0, capacity-push r.0 x ∙ r.2)

pub capacity-pop : {A : Type 0} (r : Ring A) → (pop r).1.capacity ≡ r.capacity
unfolding pop
capacity-pop r = ground arith

abbrev pub popped : {A : Type 0} {cap : ℕ} → RingOf A cap → RingOf A cap
popped r = ((pop r.0).1, (pop_lem r.0 r.1).3, capacity-pop r.0 ∙ r.2)

-- The valid rings of a capacity, those that hold the same being identified, are exactly the lists
-- of at most so many entries. On a list, `push` where there is room adds an entry at the end, and
-- `pop` returns the first entry, or the null pointer, and drops it.
pub queue_lem :
    {A : Type 0} (set : IsSet A) (memory : ℕ → A) (cap : ℕ)
    → 0 < cap
    → (r : RingOf A cap) (x : A) (room : r.0.len < cap)
    → IsEquiv (held set cap)
      × ((held set cap (Quot.mk (pushed r x room))).0 ≡ (held set cap (Quot.mk r)).0 ++ (x ∷ []))
      × ((pop r.0).0 ≡ head? (held set cap (Quot.mk r)).0)
      × ((held set cap (Quot.mk (popped r))).0 ≡ drop 1 (held set cap (Quot.mk r)).0)
unfolding held
queue_lem set memory cap pos r x room = (
  (iso_to_equiv (queue_iso memory cap pos set)).1,
  (push_lem r.0 x r.1 (omega (arith, room, r.2))).1,
  (pop_lem r.0 r.1).0,
  (pop_lem r.0 r.1).2,
)
