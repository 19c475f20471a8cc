-- ===== src/NetStruct/SegmentParser.antt =====
-- `SegmentParser` of src/rudp/NetStruct.cpp: it decrypts a package into its buffer, and hands out
-- the segments in it one by one. Each stands behind its length, and a length of 0 ends them.
pub mod Drain
mod Tests
use sharpvpn.Base.{
  ℕ, zero, suc, ◌+◌, List, [], ◌∷◌, ◌++◌, Option, none, some, ◌==◌, if◌then◌else◌, length, copy,
  read, read16,
}
use sharpvpn.Crypto
use sharpvpn.Crypto.{Secretbox, SharpCrypto}

pub record SegmentParser : Type 0 where
  pub buf : ℕ → ℕ
  pub crypto : SharpCrypto
  pub len : ℕ
  pub start : ℕ

-- The constructor leaves the 1600 bytes of the buffer as they come: `memory`.
unfoldable pub init : (ℕ → ℕ) → SharpCrypto → SegmentParser
init memory crypto = record { buf = memory; crypto = crypto; len = 0; start = 0 }

-- `load` once the package is decrypted: a failure, or an empty message, leaves the position.
unfoldable pub accept : SegmentParser → Option (List ℕ) → SegmentParser
accept p none = p
accept p (some m) =
    if length m == 0 then p else record p { buf = copy p.buf 0 m; len = length m; start = 0 }

unfoldable pub load : Secretbox → SegmentParser → List ℕ → SegmentParser
load box p bytes = accept p (Crypto.decrypt box p.crypto bytes)

-- The bytes copied out, as many as the number returned, and the parser after the call.
unfoldable pub next_segment : SegmentParser → List ℕ × SegmentParser
next_segment p =
    if p.len == 0
    then ([], p)
    else (if seg_len == 0
        then ([], p)
        else (read p.buf (p.start + 2) seg_len, record p { start = p.start + (seg_len + 2) }))
  where
    seg_len : ℕ
    seg_len = read16 p.buf p.start

-- Calls of `next_segment` until one returns 0, at most `fuel` of them: what they copied out, and
-- the parser after them.
unfoldable pub drain : ℕ → SegmentParser → List (List ℕ) × SegmentParser
drain zero p = ([], p)
drain (suc fuel) p =
    let (seg, rest) = next_segment p in
    let more = drain fuel rest in
    elim seg [ [] ↦ ([], rest) | x ∷ xs ↦ ((x ∷ xs) ∷ more.0, more.1) ]

module _ (box : Secretbox) where
  -- The segments of encrypted packages that are loaded one after the other into one parser.
  unfoldable pub deliver : SegmentParser → List (List ℕ) → List (List ℕ)
  deliver p [] = []
  deliver p (bytes ∷ packages) =
      let (segs, rest) = drain (suc (length bytes)) (load box p bytes) in
      segs ++ deliver rest packages
