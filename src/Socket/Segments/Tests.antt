-- ===== src/Socket/Segments/Tests.antt =====
-- The packing of segments at concrete inputs.
use sharpvpn.Base.{ℕ, ◌≡◌, refl, List, [], ◌∷◌, none, some, arith}
use sharpvpn.Crypto.Tests.{test_crypto}
use sharpvpn.NetStruct.SegmentParser.{SegmentParser}
use sharpvpn.NetStruct.SegmentParser
use sharpvpn.Socket.Segments.{pack, fill, put_segment, max_segment_of, tunnel_mtu_of}
use sharpvpn.Socket.Segments.Stall.{rounds, pack_stalls}

abbrev segs : List (List ℕ)
segs = (1 ∷ 2 ∷ 3 ∷ []) ∷ (4 ∷ 5 ∷ []) ∷ (6 ∷ []) ∷ []

-- Two segments go into the first package of at most thirteen bytes, and the third into another.
pack_two :
    pack 3 14 (λ _. 0) segs
    ≡ some ((3 ∷ 0 ∷ 1 ∷ 2 ∷ 3 ∷ 2 ∷ 0 ∷ 4 ∷ 5 ∷ 0 ∷ 0 ∷ []) ∷ (1 ∷ 0 ∷ 6 ∷ 0 ∷ 0 ∷ []) ∷ [])
unfolding pack fill put_segment
pack_two = refl

max_segment_1496 : (max_segment_of 1496 ≡ 1408) × (tunnel_mtu_of 1496 ≡ 1400)
unfolding max_segment_of tunnel_mtu_of
max_segment_1496 = (refl, refl)

abbrev new_parser : SegmentParser
new_parser = SegmentParser.init (λ _. 0) test_crypto

pack_stalls_example :
    let (sent, b) = rounds 3 5 (record { buf = λ _. 0; start = 2; list = segs }) in
    (sent ≡ []) × (b.list ≡ segs) × (pack 3 5 (λ _. 0) segs ≡ none)
pack_stalls_example =
    pack_stalls 3 5 (λ _. 0) (1 ∷ 2 ∷ 3 ∷ []) ((4 ∷ 5 ∷ []) ∷ (6 ∷ []) ∷ []) (omega arith)
