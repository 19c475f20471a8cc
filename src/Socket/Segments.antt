-- ===== src/Socket/Segments.antt =====
-- `start_thread_segment` of src/rudp/ReliableSocket.cpp: the segments that were queued are put
-- together into packages. `list` is the copy that the thread took of the shared queue
-- (NetStruct.Ring.Handoff), here the list of what it holds; a segment is its bytes.
pub mod Fill
pub mod Pack
pub mod Stall
mod Tests
use sharpvpn.Base.{
  ℕ, zero, suc, ◌+◌, ◌-◌, List, [], ◌∷◌, Option, none, some, ltb, if◌then◌else◌, length, copy,
  write16, read,
}
use mathlib.Core.Option
use sharpvpn.Crypto.{overhead}

-- `sizeof(PackageBaseFormat) + sizeof(PackageDataFormat)`: an enum, and two `uint64_t`.
abbrev pub header_size : ℕ
header_size = 4 + 16

-- `MAX_SEGMENT`, and the `TUNNEL_MTU` that the tunnel device is given. (The source's `int` is
-- negative below an MTU of 88, where this is 0; no segment fits in either.)
unfoldable pub max_segment_of : ℕ → ℕ
max_segment_of max_mtu = max_mtu - 20 - 8 - header_size - overhead

unfoldable pub tunnel_mtu_of : ℕ → ℕ
tunnel_mtu_of max_mtu = max_segment_of max_mtu - 4 - 4

-- The local variables of the loop.
pub record Batch : Type 0 where
  pub buf : ℕ → ℕ
  pub start : ℕ
  pub list : List (List ℕ)

-- The body of the inner loop: the length, the bytes, and a length of 0 behind them.
unfoldable pub put_segment : (ℕ → ℕ) → ℕ → List ℕ → ℕ → ℕ
put_segment buf start segment =
    let with_len = write16 buf (start - 2) (length segment) in
    let with_bytes = copy with_len start segment in write16 with_bytes (start + length segment) 0

-- The inner loop. The test `max_segment - 2 - start > segment->len` has no truncation here.
unfoldable pub fill : ℕ → (ℕ → ℕ) → ℕ → List (List ℕ) → Batch
fill max_segment buf start [] = record { buf = buf; start = start; list = [] }
fill max_segment buf start (segment ∷ list) =
    if ltb (length segment + start + 2) max_segment
    then fill max_segment (put_segment buf start segment) (start + length segment + 2) list
    else record { buf = buf; start = start; list = segment ∷ list }

-- The outer loop: the messages that are encrypted and sent, in order. `none` means that `fuel`
-- rounds did not empty the list.
unfoldable pub pack : ℕ → ℕ → (ℕ → ℕ) → List (List ℕ) → Option (List (List ℕ))
pack fuel max_segment buf [] = some []
pack zero max_segment buf (segment ∷ list) = none
pack (suc fuel) max_segment buf (segment ∷ list) =
    let b = fill max_segment buf 2 (segment ∷ list) in
    let later = pack fuel max_segment b.buf b.list in
    if ltb 2 b.start then Option.map (λ l. read b.buf 0 b.start ∷ l) later else later
