-- ===== src/Socket/Segments/Pack.antt =====
-- Packing and unpacking: every segment that is queued comes out at the other end, in order.
use sharpvpn.Base.{
  ℕ, zero, suc, ◌+◌, ◌≤◌, ◌<◌, ◌≡◌, refl, ap, ap₂, ◌∙◌, List, [], ◌∷◌, ◌++◌, some, length,
  length-append, map, flatten, arith, lt→ltb, All,
}
use mathlib.Core.Option
use sharpvpn.NetStruct.SegmentParser.{SegmentParser}
use sharpvpn.NetStruct.SegmentParser.Drain.{encode, IsSegment}
use sharpvpn.Crypto.{overhead}
use sharpvpn.Socket.Segments.{put_segment, fill, pack, max_segment_of, tunnel_mtu_of, header_size}
use sharpvpn.Socket.Segments.Fill.{
  taken, left, taken-append-left, list-fill, fill-encodes, start-fill,
}

-- A segment that fits in a package of its own.
abbrev pub Fits : ℕ → List ℕ → Type 0
Fits m s = length s + 4 < m

pub All-left :
    (P : List ℕ → Type 0) (m start : ℕ) (list : List (List ℕ))
    → All P list
    → All P (left m start list)
unfolding left
All-left P m start [] h = h
All-left P m start (s ∷ list) h = ground (arith, All-left P m (start + length s + 2) list h.1, h)

All-taken :
    (P : List ℕ → Type 0) (m start : ℕ) (list : List (List ℕ))
    → All P list
    → All P (taken m start list)
unfolding taken
All-taken P m start [] h = h
All-taken P m start (s ∷ list) h = ground (arith, All-taken P m (start + length s + 2) list h.1, h)

length-left : (m start : ℕ) (list : List (List ℕ)) → length (left m start list) ≤ length list
unfolding left
length-left m start [] = omega arith
length-left m start (s ∷ list) = ground (arith, length-left m (start + length s + 2) list)

-- A first segment that fits is taken.
pub taken_first :
    (m : ℕ) (s : List ℕ) (list : List (List ℕ))
    → Fits m s
    → (length (left m 2 (s ∷ list)) ≤ length list)
unfolding left
taken_first m s list h = ground (arith, length-left m (2 + length s + 2) list, h)

-- The groups of segments that the packages carry.
pub groups : ℕ → ℕ → List (List ℕ) → List (List (List ℕ))
groups fuel m [] = []
groups zero m (s ∷ list) = []
groups (suc fuel) m (s ∷ list) = taken m 2 (s ∷ list) ∷ groups fuel m (left m 2 (s ∷ list))

pub flatten-groups :
    (fuel m : ℕ) (list : List (List ℕ))
    → length list ≤ fuel
    → All (Fits m) list
    → flatten (groups fuel m list) ≡ list
unfolding groups
flatten-groups fuel m [] f h = refl
flatten-groups zero m (s ∷ list) f h = absurd (omega arith)
flatten-groups (suc fuel) m (s ∷ list) f h =
    ap (◌++◌ (taken m 2 (s ∷ list))) (
      flatten-groups fuel m (left m 2 (s ∷ list)) (omega (arith, taken_first m s list h.0))
        (All-left (Fits m) m 2 (s ∷ list) h))
    ∙ taken-append-left m 2 (s ∷ list)

pub All-groups :
    (fuel m : ℕ) (list : List (List ℕ))
    → All IsSegment list
    → All (All IsSegment) (groups fuel m list)
unfolding groups
All-groups fuel m [] h = tt
All-groups zero m (s ∷ list) h = tt
All-groups (suc fuel) m (s ∷ list) h = (
  All-taken IsSegment m 2 (s ∷ list) h,
  All-groups fuel m (left m 2 (s ∷ list)) (All-left IsSegment m 2 (s ∷ list) h),
)

-- A group takes at least one segment.
pub groups_full :
    (fuel m : ℕ) (list : List (List ℕ))
    → All (Fits m) list
    → All (λ g. 0 < length g) (groups fuel m list)
unfolding groups
groups_full fuel m [] h = tt
groups_full zero m (s ∷ list) h = tt
groups_full (suc fuel) m (s ∷ list) h = (
  omega (
    arith,
    taken_first m s list h.0,
    ap length (taken-append-left m 2 (s ∷ list)),
    length-append (taken m 2 (s ∷ list)) (left m 2 (s ∷ list)),
  ),
  groups_full fuel m (left m 2 (s ∷ list)) (All-left (Fits m) m 2 (s ∷ list) h),
)

start_moves :
    (m : ℕ) (buf : ℕ → ℕ) (s : List ℕ) (list : List (List ℕ))
    → Fits m s
    → 2 < (fill m buf 2 (s ∷ list)).start
unfolding fill
start_moves m buf s list h =
    ground (arith, start-fill m list (put_segment buf 2 s) (2 + length s + 2), h)

pack_step :
    (fuel m : ℕ) (buf : ℕ → ℕ) (s : List ℕ) (list : List (List ℕ))
    → Fits m s
    → pack (suc fuel) m buf (s ∷ list)
      ≡ Option.map
          (λ l. encode (taken m 2 (s ∷ list)) ∷ l)
          (pack fuel m (fill m buf 2 (s ∷ list)).buf (left m 2 (s ∷ list)))
unfolding pack
pack_step fuel m buf s list h =
    rw (lt→ltb 2 (fill m buf 2 (s ∷ list)).start (start_moves m buf s list h)) (
      ap₂ (λ x rest. Option.map (λ l. x ∷ l) (pack fuel m (fill m buf 2 (s ∷ list)).buf rest))
        (fill-encodes m buf s list h) (list-fill m buf 2 (s ∷ list)))

pub pack-groups :
    (fuel m : ℕ) (buf : ℕ → ℕ) (list : List (List ℕ))
    → length list ≤ fuel
    → All (Fits m) list
    → pack fuel m buf list ≡ some (map encode (groups fuel m list))
unfolding groups
pack-groups fuel m buf [] f h = unfold pack in refl
pack-groups zero m buf (s ∷ list) f h = absurd (omega arith)
pack-groups (suc fuel) m buf (s ∷ list) f h =
    pack_step fuel m buf s list h.0
    ∙ ap (Option.map (λ l. encode (taken m 2 (s ∷ list)) ∷ l)) (
        pack-groups fuel m (fill m buf 2 (s ∷ list)).buf (left m 2 (s ∷ list))
          (omega (arith, taken_first m s list h.0)) (All-left (Fits m) m 2 (s ∷ list) h))

-- What the tunnel device hands out is within its MTU, so it fits in a package; and the datagram of
-- a message below the limit, with the IP and UDP headers, stays within the network's MTU.
pub mtu_bounds :
    (max_mtu r n : ℕ)
    → r ≤ tunnel_mtu_of max_mtu
    → 0 < r
    → n < max_segment_of max_mtu
    → (r + 4 < max_segment_of max_mtu) × (n + overhead + header_size + 20 + 8 ≤ max_mtu)
unfolding tunnel_mtu_of max_segment_of
mtu_bounds max_mtu r n h p q = omega arith
