-- ===== src/NetStruct/SegmentParser/Tests.antt =====
-- The parser at concrete inputs.
use sharpvpn.Base.{ℕ, ◌≡◌, refl, List, [], ◌∷◌}
use sharpvpn.Crypto.Tests.{test_crypto}
use sharpvpn.NetStruct.SegmentParser.{SegmentParser, init}
use sharpvpn.NetStruct.SegmentParser.Drain.{encode}

abbrev new_parser : SegmentParser
new_parser = init (λ _. 7) test_crypto

abbrev two_segments : List (List ℕ)
two_segments = (1 ∷ 2 ∷ 3 ∷ []) ∷ (4 ∷ []) ∷ []

encode_layout : encode two_segments ≡ 3 ∷ 0 ∷ 1 ∷ 2 ∷ 3 ∷ 1 ∷ 0 ∷ 4 ∷ 0 ∷ 0 ∷ []
encode_layout = refl
