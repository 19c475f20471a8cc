-- ===== src/Socket/Segments/Fill.antt =====
-- What the inner loop leaves in the buffer: the encoding of the segments that it took.
use sharpvpn.Base.{
  ℕ, ◌+◌, ◌-◌, ◌≤◌, ◌<◌, ◌≡◌, refl, ap, ◌∙◌, List, [], ◌∷◌, ◌++◌, ltb, if◌then◌else◌, length, copy,
  write16, read, le16, read-copy_append, read-copy_before, arith, Bool-cases, inl, inr, lt→ltb,
}
use mathlib.Core.List.{append_assoc}
use sharpvpn.NetStruct.SegmentParser.Drain.{encode}
use sharpvpn.Socket.Segments.{put_segment, fill}

-- The segments that the loop takes when it stands at `start`, and those that it leaves.
unfoldable pub taken : ℕ → ℕ → List (List ℕ) → List (List ℕ)
taken max_segment start [] = []
taken max_segment start (s ∷ list) =
    if ltb (length s + start + 2) max_segment
    then s ∷ taken max_segment (start + length s + 2) list
    else []

unfoldable pub left : ℕ → ℕ → List (List ℕ) → List (List ℕ)
left max_segment start [] = []
left max_segment start (s ∷ list) =
    if ltb (length s + start + 2) max_segment
    then left max_segment (start + length s + 2) list
    else s ∷ list

pub taken-append-left :
    (m start : ℕ) (list : List (List ℕ)) → taken m start list ++ left m start list ≡ list
unfolding taken left
taken-append-left m start [] = refl
taken-append-left m start (s ∷ list) =
    ground (arith, taken-append-left m (start + length s + 2) list)

pub list-fill :
    (m : ℕ) (buf : ℕ → ℕ) (start : ℕ) (list : List (List ℕ))
    → (fill m buf start list).list ≡ left m start list
unfolding fill left
list-fill m buf start [] = refl
list-fill m buf start (s ∷ list) =
    ground (arith, list-fill m (put_segment buf start s) (start + length s + 2) list)

-- The buffer before the last write of `put_segment`.
abbrev filled : (ℕ → ℕ) → ℕ → List ℕ → ℕ → ℕ
filled buf k s = copy (write16 buf k (length s)) (k + 2) s

put_segment_at :
    (buf : ℕ → ℕ) (k : ℕ) (s : List ℕ)
    → put_segment buf (k + 2) s ≡ write16 (filled buf k s) (k + 2 + length s) 0
unfolding put_segment
put_segment_at buf k s =
    ap (λ i. write16 (copy (write16 buf i (length s)) (k + 2) s) (k + 2 + length s) 0) back
  where
    back : k + 2 - 2 ≡ k
    back = omega arith

-- One segment behind `pre` puts its length and its bytes there.
filled-appends :
    (buf : ℕ → ℕ) (k : ℕ) (pre s : List ℕ)
    → read buf 0 k ≡ pre
    → read (filled buf k s) 0 (k + 2 + length s) ≡ pre ++ (le16 (length s) ++ s)
filled-appends buf k pre s h =
    read-copy_append (write16 buf k (length s)) (k + 2) (pre ++ le16 (length s)) s
      (read-copy_append buf k pre (le16 (length s)) h)
    ∙ append_assoc pre (le16 (length s)) s

put-appends :
    (buf : ℕ → ℕ) (k : ℕ) (pre s : List ℕ)
    → read buf 0 k ≡ pre
    → read (put_segment buf (k + 2) s) 0 (k + 2 + length s) ≡ pre ++ (le16 (length s) ++ s)
put-appends buf k pre s h = rw (put_segment_at buf k s) (
    read-copy_before (filled buf k s) 0 (k + 2 + length s) (k + 2 + length s) (le16 0) (omega arith)
    ∙ filled-appends buf k pre s h)

-- And a length of 0 behind them.
put-ends :
    (buf : ℕ → ℕ) (k : ℕ) (pre s : List ℕ)
    → read buf 0 k ≡ pre
    → read (put_segment buf (k + 2) s) 0 (k + 2 + length s + 2)
      ≡ (pre ++ (le16 (length s) ++ s)) ++ le16 0
put-ends buf k pre s h = rw (put_segment_at buf k s) (
    read-copy_append (filled buf k s) (k + 2 + length s) (pre ++ (le16 (length s) ++ s)) (le16 0)
      (filled-appends buf k pre s h))

-- With the 0 behind `pre` the loop appends what it takes, and a 0 behind that.
fill-appends :
    (m : ℕ) (list : List (List ℕ)) (buf : ℕ → ℕ) (k : ℕ) (pre : List ℕ)
    → read buf 0 k ≡ pre
    → read buf 0 (k + 2) ≡ pre ++ le16 0
    → let b = fill m buf (k + 2) list in read b.buf 0 b.start ≡ pre ++ encode (taken m (k + 2) list)
unfolding fill taken
fill-appends m [] buf k pre h t = t
fill-appends m (s ∷ list) buf k pre h t = elim (Bool-cases (ltb (length s + (k + 2) + 2) m)) [
  | inl fits ↦ rw fits (
      fill-appends m list (put_segment buf (k + 2) s) (k + 2 + length s)
        (pre ++ (le16 (length s) ++ s)) (put-appends buf k pre s h) (put-ends buf k pre s h)
      ∙ append_assoc pre (le16 (length s) ++ s) _)
  | inr full ↦ rw full t
]

-- From the start of the buffer: if the first segment fits, the package is the encoding of what
-- the loop takes, whatever the buffer held before.
pub fill-encodes :
    (m : ℕ) (buf : ℕ → ℕ) (s : List ℕ) (list : List (List ℕ))
    → length s + 4 < m
    → let b = fill m buf 2 (s ∷ list) in read b.buf 0 b.start ≡ encode (taken m 2 (s ∷ list))
unfolding fill taken
fill-encodes m buf s list h = rw (lt→ltb (length s + 2 + 2) m (omega arith)) (
    fill-appends m list (put_segment buf 2 s) (2 + length s) (le16 (length s) ++ s)
      (put-appends buf 0 [] s refl) (put-ends buf 0 [] s refl)
    ∙ append_assoc (le16 (length s)) s _)

-- The package stays below the limit, and is not empty.
pub start-fill :
    (m : ℕ) (list : List (List ℕ)) (buf : ℕ → ℕ) (start : ℕ)
    → start < m
    → (start ≤ (fill m buf start list).start) × ((fill m buf start list).start < m)
unfolding fill
start-fill m [] buf start h = (omega arith, h)
start-fill m (s ∷ list) buf start h =
    ground (arith, start-fill m list (put_segment buf start s) (start + length s + 2))
