-- ===== src/Package/Formats/Roundtrip.antt =====
-- What one end writes, the other reads back.
use sharpvpn.Base.{
  ℕ, zero, suc, ◌+◌, ◌*◌, ◌/◌, ◌%◌, ◌^◌, ◌<◌, ◌≡◌, refl, ap, ap₂, ◌∙◌, List, [], ◌∷◌, ◌++◌, arith,
  length, take, drop, All,
}
use sharpvpn.Package.{DataPackage, AckPackage}
use sharpvpn.Package.Formats.{
  le_bytes, of_le, encode_data, parse_data, encode_ack, parse_ack, encode_ids, read_ids, type_code,
  encode_create_r, parse_create_r,
}

length-le_bytes : (n v : ℕ) → length (le_bytes n v) ≡ n
unfolding le_bytes
length-le_bytes zero v = refl
length-le_bytes (suc n) v = ap suc (length-le_bytes n (v / 256))

of_le-le_bytes : (n v : ℕ) → v < 256 ^ n → of_le (le_bytes n v) ≡ v
unfolding of_le le_bytes
of_le-le_bytes zero v h = ground (arith, h)
of_le-le_bytes (suc n) v h =
    ap (λ k. v % 256 + 256 * k) (of_le-le_bytes n (v / 256) (ground (arith, h))) ∙ omega arith

-- A number of eight bytes at the front.
front_field :
    (v : ℕ) (rest : List ℕ)
    → v < 2 ^ 64
    → (of_le (take 8 (le_bytes 8 v ++ rest)) ≡ v) × (drop 8 (le_bytes 8 v ++ rest) ≡ rest)
unfolding le_bytes
front_field v rest h = (of_le-le_bytes 8 v (omega (arith, h)), refl)

-- A `Data` package, its id and `una` below 2 ^ 64, is read back as it was written.
pub parse_data-encode_data :
    (d : DataPackage) → d.package_id < 2 ^ 64 → d.una < 2 ^ 64 → parse_data (encode_data d) ≡ d
unfolding parse_data encode_data le_bytes type_code
parse_data-encode_data d h k =
    rw (of_le-le_bytes 8 d.package_id (omega (arith, h)), of_le-le_bytes 8 d.una (omega (arith, k)))
      refl

read_ids-encode_ids :
    (ids : List ℕ) → All (λ id. id < 2 ^ 64) ids → read_ids (length ids) (encode_ids ids) ≡ ids
unfolding read_ids
read_ids-encode_ids [] h = refl
read_ids-encode_ids (id ∷ ids) h =
    let front = front_field id (encode_ids ids) h.0 in
    ap₂ ◌∷◌ front.0 (ap (read_ids (length ids)) front.1 ∙ read_ids-encode_ids ids h.1)

-- An `Ack` package, its numbers and ids below 2 ^ 64, is read back as it was written, with the ids
-- that it lists.
pub parse_ack-encode_ack :
    (a : AckPackage)
    → a.una < 2 ^ 64
    → a.send_from < 2 ^ 64
    → length a.ack_list < 2 ^ 64
    → All (λ id. id < 2 ^ 64) a.ack_list
    → parse_ack (encode_ack a) ≡ a
unfolding parse_ack encode_ack le_bytes type_code
parse_ack-encode_ack a h k l m =
    rw
      (
        of_le-le_bytes 8 a.una (omega (arith, h)),
        of_le-le_bytes 8 a.send_from (omega (arith, k)),
        of_le-le_bytes 8 (length a.ack_list) (omega (arith, l)),
        read_ids-encode_ids a.ack_list m,
      )
      refl

-- The answer to a request for a connection is read back: the speed and the port.
pub parse_create_r-encode_create_r :
    (download_speed port : ℕ)
    → download_speed < 2 ^ 32
    → port < 2 ^ 32
    → parse_create_r (encode_create_r download_speed port) ≡ (download_speed, port)
unfolding parse_create_r encode_create_r le_bytes type_code
parse_create_r-encode_create_r download_speed port h k =
    rw
      (of_le-le_bytes 4 download_speed (omega (arith, h)), of_le-le_bytes 4 port (omega (arith, k)))
      refl
