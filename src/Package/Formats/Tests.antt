-- ===== src/Package/Formats/Tests.antt =====
-- The formats at concrete packages.
use sharpvpn.Base.{◌≡◌, refl, [], ◌∷◌, arith}
use sharpvpn.Package.{DataPackage, AckPackage}
use sharpvpn.Package.Formats.{le_bytes, type_code, encode_data, encode_ack, parse_ack}
use sharpvpn.Package.Formats.Roundtrip.{parse_ack-encode_ack}

abbrev data_example : DataPackage
data_example = record { package_id = 258; una = 3; bytes = 9 ∷ [] }

abbrev ack_example : AckPackage
ack_example = record { una = 1; send_from = 0; ack_list = 5 ∷ 700 ∷ [] }

encode_data_layout :
    encode_data data_example
    ≡ 5 ∷ 0 ∷ 0 ∷ 0 ∷ 2 ∷ 1 ∷ 0 ∷ 0 ∷ 0 ∷ 0 ∷ 0 ∷ 0 ∷ 3 ∷ 0 ∷ 0 ∷ 0 ∷ 0 ∷ 0 ∷ 0 ∷ 0 ∷ 9 ∷ []
unfolding encode_data le_bytes type_code
encode_data_layout = refl

parse_ack-encode_ack_example : parse_ack (encode_ack ack_example) ≡ ack_example
parse_ack-encode_ack_example =
    parse_ack-encode_ack ack_example (omega arith) (omega arith) (omega arith)
      (omega arith, (omega arith, tt))
