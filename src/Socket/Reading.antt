-- ===== src/Socket/Reading.antt =====
-- The calls of `recv_package` of src/rudp/ReliableSocket.cpp that take apart the packages which the
-- segment thread of the other end put together.
use sharpvpn.Base.{
  ℕ, zero, suc, ◌+◌, ◌^◌, ◌<◌, ◌≡◌, refl, ap, ◌∙◌, List, [], ◌∷◌, ◌++◌, flatten, length,
  length-append, All, none, some, arith,
}
use native.Mathlib.Nat.{mod-eq_of_lt}
use sharpvpn.Crypto.{Secretbox, SharpCrypto, encrypt, noncebytes}
use sharpvpn.NetStruct.PackageMap
use sharpvpn.NetStruct.PackageMap.{PackageMap}
use sharpvpn.NetStruct.PackageMap.Laws.{find-erase}
use sharpvpn.NetStruct.SegmentParser.{SegmentParser, accept, load, next_segment}
use sharpvpn.NetStruct.SegmentParser.Drain.{
  encode, IsSegment, Before, next-Before, end-Before, accept-Before, crypto-next_segment,
  crypto-accept, load-encrypt,
}
use sharpvpn.Package.{DataPackage}
use sharpvpn.Socket.State.{Socket, add64}
use sharpvpn.Socket.Receiver.{blocked, stopped, segment, recv_package, through_int}
use sharpvpn.Socket.Receiver.Take.{once_taken, take-found}

-- What so many calls return, up to the first that waits or fails.
unfoldable pub received : Secretbox → ℕ → Socket → List (List ℕ)
received box zero s = []
received box (suc n) s = elim (recv_package box 1 s) [
  | none ↦ []
  | some (blocked t) ↦ []
  | some (stopped t) ↦ []
  | some (segment seg t) ↦ seg ∷ received box n t
]

module _ (box : Secretbox) (nonce : ℕ → List ℕ) (c : SharpCrypto) where
  -- The encrypted packages of groups of segments, stored under the ids from `id` on.
  abbrev pub Stored : PackageMap DataPackage → ℕ → ℕ → List (List (List ℕ)) → Type 0
  Stored pool id i [] = Unit {0}
  Stored pool id i (g ∷ groups) =
      ((d : DataPackage) × (PackageMap.find pool id ≡ some d)
        × (d.bytes ≡ encrypt box c (nonce i) (encode g)))
      × Stored pool (id + 1) (i + 1) groups

  Stored-erase :
      (pool : PackageMap DataPackage) (gone id i : ℕ) (groups : List (List (List ℕ)))
      → gone < id
      → Stored pool id i groups
      → Stored (PackageMap.erase pool gone) id i groups
  Stored-erase pool gone id i [] h s = tt
  Stored-erase pool gone id i (g ∷ groups) h s = (
    (s.0.0, ground (arith, find-erase pool gone id (omega (arith, h)), h, s.0.1), s.0.2),
    Stored-erase pool gone (id + 1) (i + 1) groups (omega (arith, h)) s.1,
  )

recv_package-Before :
    (box : Secretbox) (s : Socket) (x : List ℕ) (segs : List (List ℕ))
    → IsSegment x
    → Before s.segment_recv (x ∷ segs)
    → recv_package box 1 s
      ≡ some (segment x (record s { segment_recv = (next_segment s.segment_recv).1 }))
unfolding recv_package
recv_package-Before box s [] segs h b = absurd (omega (arith, h.0))
recv_package-Before box s (y ∷ ys) segs h b =
    ground (arith, (next-Before s.segment_recv (y ∷ ys) segs h b).0)

-- The segments that are left of the package in hand: none, also before the first package.
abbrev pub InHand : SegmentParser → List (List ℕ) → Type 0
InHand p [] = next_segment p ≡ ([], p)
InHand p (x ∷ segs) = Before p (x ∷ segs)

Before-InHand : (p : SegmentParser) (segs : List (List ℕ)) → Before p segs → InHand p segs
Before-InHand p [] b = end-Before p b
Before-InHand p (x ∷ segs) b = b

received-segment :
    (box : Secretbox) (n : ℕ) (s : Socket) (seg : List ℕ) (t : Socket)
    → recv_package box 1 s ≡ some (segment seg t)
    → received box (suc n) s ≡ seg ∷ received box n t
unfolding received
received-segment box n s seg t e = rw (e, received)

module _ (box : Secretbox) (nonce : ℕ → List ℕ)
    (nonces : (i : ℕ) → length (nonce i) ≡ noncebytes) where
  -- The socket after the first segment of the next package.
  abbrev opened : Socket → List (List ℕ) → Socket
  opened s g = record (once_taken 0 s) {
    segment_recv = (next_segment (accept s.segment_recv (some (encode g)))).1;
  }

  recv_package-opened :
      (s : Socket) (d : DataPackage) (i : ℕ) (x : List ℕ) (g : List (List ℕ))
      → IsSegment x
      → next_segment s.segment_recv ≡ ([], s.segment_recv)
      → PackageMap.find s.recv_pool s.recv_id ≡ some d
      → d.bytes ≡ encrypt box s.segment_recv.crypto (nonce i) (encode (x ∷ g))
      → recv_package box 1 s ≡ some (segment x (opened s (x ∷ g)))
  unfolding recv_package
  recv_package-opened s d i x g h b e f =
      let first =
        next-Before (accept s.segment_recv (some (encode (x ∷ g)))) x g h
          (accept-Before s.segment_recv (x ∷ g)) in
      let loaded : load box s.segment_recv d.bytes ≡ accept s.segment_recv (some (encode (x ∷ g))) =
        ap (load box s.segment_recv) f
        ∙ load-encrypt box nonce nonces s.segment_recv s.segment_recv.crypto i (encode (x ∷ g))
            refl in
      ground (arith, b, take-found 0 s d e, loaded, first.0)

  low_id : (id : ℕ) → id < 2 ^ 31 → through_int id ≡ id
  unfolding through_int
  low_id id h = ground (arith, h)

  -- Once the packages of some groups of segments have all arrived, encrypted under the parser's key
  -- and under ids that follow each other from `recv_id` on and are below 2 ^ 31, the calls of
  -- `recv_package` return the segments that are left of the package in hand and then those of the
  -- groups, each once and in order; none of the calls waits.
  pub received_lem :
      (n : ℕ) (segs : List (List ℕ)) (groups : List (List (List ℕ))) (s : Socket) (i : ℕ)
      → n ≡ length segs + length (flatten groups)
      → s.recv_id + length groups < 2 ^ 31
      → InHand s.segment_recv segs
      → All IsSegment segs
      → All (λ g. All IsSegment g × (0 < length g)) groups
      → Stored box nonce s.segment_recv.crypto s.recv_pool s.recv_id i groups
      → received box n s ≡ segs ++ flatten groups
  unfolding received
  received_lem zero [] [] s i e l b hs hg st = refl
  received_lem (suc n) [] [] s i e l b hs hg st = absurd (omega (arith, e))
  received_lem zero (x ∷ segs) groups s i e l b hs hg st = absurd (omega (arith, e))
  received_lem (suc n) (x ∷ segs) groups s i e l b hs hg st =
      let next = next-Before s.segment_recv x segs hs.0 b in
      received-segment box n s x _ (recv_package-Before box s x segs hs.0 b)
      ∙ ap (◌∷◌ x) (
          received_lem n segs groups (record s { segment_recv = (next_segment s.segment_recv).1 }) i
            (omega (arith, e)) l (Before-InHand _ segs next.1) hs.1 hg
            (rw (crypto-next_segment s.segment_recv) st))
  received_lem n [] ([] ∷ groups) s i e l b hs hg st = absurd (omega (arith, hg.0.1))
  received_lem zero [] ((x ∷ g) ∷ groups) s i e l b hs hg st =
      absurd (omega (arith, e, length-append (x ∷ g) (flatten groups)))
  received_lem (suc n) [] ((x ∷ g) ∷ groups) s i e l b hs hg st =
      let in_hand = accept s.segment_recv (some (encode (x ∷ g))) in
      let next = next-Before in_hand x g hg.0.0.0 (accept-Before s.segment_recv (x ∷ g)) in
      let next_id : add64 s.recv_id 1 ≡ s.recv_id + 1 = mod-eq_of_lt (omega (arith, l)) in
      let same_key : (next_segment in_hand).1.crypto ≡ s.segment_recv.crypto =
        crypto-next_segment in_hand ∙ crypto-accept s.segment_recv (some (encode (x ∷ g))) in
      received-segment box n s x _ (recv_package-opened s st.0.0 i x g hg.0.0.0 b st.0.1 st.0.2)
      ∙ ap (◌∷◌ x) (
          received_lem n g groups (opened s (x ∷ g)) (i + 1)
            (omega (arith, e, length-append (x ∷ g) (flatten groups))) (omega (arith, l, next_id))
            (Before-InHand _ g next.1) hg.0.0.1 hg.1
            (rw next_id (
              rw (low_id s.recv_id (omega (arith, l))) (
                rw same_key (
                  Stored-erase box nonce s.segment_recv.crypto s.recv_pool s.recv_id (s.recv_id + 1)
                    (i + 1) groups (omega arith) st.1)))))
