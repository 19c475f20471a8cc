-- ===== src/NetStruct/SegmentParser/Drain.antt =====
-- The bytes of a package full of segments, and that the parser takes them apart again.
use sharpvpn.Base.{
  read-append_split, cons_split, Option, none, zero, map, flatten, ℕ, suc, ◌+◌, ◌/◌, ◌%◌, ◌<◌, ◌≡◌,
  refl, ap, ap₂, ◌∙◌, List, [], ◌∷◌, ◌++◌, some, length, length-append, copy, read, read16, le16,
  read-copy_self, arith, All,
}
use sharpvpn.Crypto.{Secretbox, SharpCrypto, encrypt, decrypt, encrypt_all, noncebytes}
use sharpvpn.Crypto.Laws.{decrypt-encrypt}
use sharpvpn.NetStruct.SegmentParser.{load, SegmentParser, accept, next_segment, drain, deliver}

-- The layout: each segment behind its length, then a length of 0.
abbrev pub encode : List (List ℕ) → List ℕ
encode [] = le16 0
encode (s ∷ segs) = le16 (length s) ++ (s ++ encode segs)

-- A segment that a length of 16 bits can announce.
abbrev pub IsSegment : List ℕ → Type 0
IsSegment s = (0 < length s) × (length s < 65536)

-- The parser stands at `pos` before the encoding of `segs`.
abbrev pub Before : SegmentParser → List (List ℕ) → Type 0
Before p segs = (0 < p.len) × (read p.buf p.start (length (encode segs)) ≡ encode segs)

-- A length that was written is read back, and what follows it stands two bytes on.
read16-le16 :
    (b : ℕ → ℕ) (i n v : ℕ) (xs : List ℕ)
    → v < 65536
    → read b i (suc (suc n)) ≡ le16 v ++ xs
    → (read16 b i ≡ v) × (read b (i + 2) n ≡ xs)
read16-le16 b i n v xs h e =
    let one = cons_split (b i) (v % 256) (read b (i + 1) (suc n)) (v / 256 % 256 ∷ xs) e in
    let two = cons_split (b (i + 1)) (v / 256 % 256) (read b (i + 1 + 1) n) xs one.1 in
    (omega (arith, one.0, two.0), ap (λ k. read b k n) two_on ∙ two.1)
  where
    two_on : i + 2 ≡ i + 1 + 1
    two_on = omega arith

pub next-Before :
    (p : SegmentParser) (s : List ℕ) (segs : List (List ℕ))
    → IsSegment s
    → Before p (s ∷ segs)
    → ((next_segment p).0 ≡ s) × Before (next_segment p).1 segs
next-Before p s segs h b =
    let head = read16-le16 p.buf p.start _ (length s) (s ++ encode segs) h.1 b.1 in
    let body = read-append_split p.buf (p.start + 2) s (encode segs) head.1 in
    rw (opened head.0) (body.0, (b.0, moved ∙ body.1))
  where
    opened :
        read16 p.buf p.start ≡ length s
        → next_segment p
          ≡ (read p.buf (p.start + 2) (length s), record p { start = p.start + (length s + 2) })
    opened e = unfold next_segment in ground (arith, h.0, b.0, e)

    moved :
        read p.buf (p.start + (length s + 2)) (length (encode segs))
        ≡ read p.buf (p.start + 2 + length s) (length (encode segs))
    moved = ap (λ k. read p.buf k (length (encode segs))) (omega arith)

pub end-Before : (p : SegmentParser) → Before p [] → next_segment p ≡ ([], p)
unfolding next_segment
end-Before p b =
    let head = read16-le16 p.buf p.start 0 0 [] (omega arith) b.1 in ground (arith, head.0, b.0)

drain_step :
    (fuel : ℕ) (p : SegmentParser) (s : List ℕ)
    → 0 < length s
    → (next_segment p).0 ≡ s
    → (drain (suc fuel) p).0 ≡ s ∷ (drain fuel (next_segment p).1).0
unfolding drain
drain_step fuel p [] h e = absurd (omega arith)
drain_step fuel p (x ∷ xs) h e = rw (e, drain)

drain-Before :
    (segs : List (List ℕ)) (fuel : ℕ) (p : SegmentParser)
    → length segs < fuel
    → All IsSegment segs
    → Before p segs
    → (drain fuel p).0 ≡ segs
drain-Before segs zero p f h b = absurd (omega arith)
drain-Before [] (suc fuel) p f h b = unfold drain in rw (end-Before p b, drain)
drain-Before (s ∷ segs) (suc fuel) p f h b =
    let next = next-Before p s segs h.0 b in
    drain_step fuel p s h.0.0 next.0
    ∙ ap (◌∷◌ s) (drain-Before segs fuel (next_segment p).1 (omega arith) h.1 next.1)

length-encode_pos : (segs : List (List ℕ)) → 0 < length (encode segs)
length-encode_pos [] = omega arith
length-encode_pos (s ∷ segs) = omega arith

accept-some :
    (p : SegmentParser) (m : List ℕ)
    → 0 < length m
    → accept p (some m) ≡ record p { buf = copy p.buf 0 m; len = length m; start = 0 }
unfolding accept
accept-some p m h = ground (arith, h)

pub accept-Before :
    (p : SegmentParser) (segs : List (List ℕ)) → Before (accept p (some (encode segs))) segs
accept-Before p segs =
    rw (accept-some p (encode segs) (length-encode_pos segs))
      (length-encode_pos segs, read-copy_self p.buf 0 (encode segs))

-- A package that holds whole segments is taken apart into exactly those, in order, whatever the
-- parser held before; after them `next_segment` returns 0.
pub drain-encode :
    (p : SegmentParser) (segs : List (List ℕ)) (fuel : ℕ)
    → All IsSegment segs
    → length segs < fuel
    → (drain fuel (accept p (some (encode segs)))).0 ≡ segs
drain-encode p segs fuel h f =
    drain-Before segs fuel (accept p (some (encode segs))) f h (accept-Before p segs)

pub length-encode : (segs : List (List ℕ)) → length segs < length (encode segs)
length-encode [] = omega arith
length-encode (s ∷ segs) = omega (arith, length-append s (encode segs), length-encode segs)

pub crypto-next_segment : (p : SegmentParser) → (next_segment p).1.crypto ≡ p.crypto
unfolding next_segment
crypto-next_segment p = ground arith

crypto-drain : (fuel : ℕ) (p : SegmentParser) → (drain fuel p).1.crypto ≡ p.crypto
unfolding drain
crypto-drain zero p = refl
crypto-drain (suc fuel) p =
    ground (arith, crypto-drain fuel (next_segment p).1, crypto-next_segment p)

pub crypto-accept : (p : SegmentParser) (o : Option (List ℕ)) → (accept p o).crypto ≡ p.crypto
unfolding accept
crypto-accept p none = refl
crypto-accept p (some m) = ground arith

module _ (box : Secretbox) (nonce : ℕ → List ℕ)
    (nonces : (i : ℕ) → length (nonce i) ≡ noncebytes) where
  pub load-encrypt :
      (p : SegmentParser) (c : SharpCrypto) (i : ℕ) (m : List ℕ)
      → p.crypto ≡ c
      → load box p (encrypt box c (nonce i) m) ≡ accept p (some m)
  unfolding load
  load-encrypt p c i m e =
      ap (λ k. accept p (decrypt box k (encrypt box c (nonce i) m))) e
      ∙ ap (accept p) (decrypt-encrypt box c (nonce i) m (nonces i)).0

  enough :
      (g : List (List ℕ)) (i : ℕ) (c : SharpCrypto)
      → length g < suc (length (encrypt box c (nonce i) (encode g)))
  enough g i c =
      omega (arith, length-encode g, (decrypt-encrypt box c (nonce i) (encode g) (nonces i)).1)

  -- Packages of whole segments, encrypted under the parser's key with any nonces and loaded one
  -- after the other, give the segments of all in order.
  pub deliver-encode :
      (groups : List (List (List ℕ))) (p : SegmentParser) (c : SharpCrypto) (i : ℕ)
      → p.crypto ≡ c
      → All (All IsSegment) groups
      → deliver box p (encrypt_all box c nonce i (map encode groups)) ≡ flatten groups
  unfolding deliver
  deliver-encode [] p c i e h = refl
  deliver-encode (g ∷ groups) p c i e h =
      let n = suc (length (encrypt box c (nonce i) (encode g))) in
      let done = accept p (some (encode g)) in
      rw (load-encrypt p c i (encode g) e) (
        ap₂ ◌++◌ (drain-encode p g n h.0 (enough g i c)) (
          deliver-encode groups (drain n done).1 c (i + 1)
            (crypto-drain n done ∙ crypto-accept p (some (encode g)) ∙ e) h.1))
