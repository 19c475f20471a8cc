-- ===== src/Package/Formats.antt =====
-- The bytes of the packages of src/rudp/Package.h: a `PackageType`, then the fields of the format
-- behind it, little-endian. What the classes read and write through their pointers is written out;
-- a package is the list of its bytes, and bytes that are not there read as 0.
pub mod Roundtrip
mod Tests
use sharpvpn.Base.{
  ℕ, zero, suc, ◌+◌, ◌-◌, ◌*◌, ◌/◌, ◌%◌, List, [], ◌∷◌, ◌++◌, Bool, true, false, ◌==◌,
  if◌then◌else◌, length, take, drop, not, ltb,
}
use sharpvpn.Package.{
  PackageType, connection_create, connection_create_r, connection_close, connection_close_r, ping,
  data_package, ack, DataPackage, AckPackage, PingPackage,
}

-- The `n` bytes of a number, and the number of bytes.
unfoldable pub le_bytes : ℕ → ℕ → List ℕ
le_bytes zero v = []
le_bytes (suc n) v = v % 256 ∷ le_bytes n (v / 256)

unfoldable pub of_le : List ℕ → ℕ
of_le [] = 0
of_le (b ∷ bytes) = b + 256 * of_le bytes

-- The number of `n` bytes that stands at `at`.
abbrev pub field : ℕ → ℕ → List ℕ → ℕ
field at n bytes = of_le (take n (drop at bytes))

unfoldable pub type_code : PackageType → ℕ
type_code connection_create = 0
type_code connection_create_r = 1
type_code connection_close = 2
type_code connection_close_r = 3
type_code ping = 4
type_code data_package = 5
type_code ack = 6

-- `parse_package_type`: the number that the enum holds.
unfoldable pub parse_package_type : List ℕ → ℕ
parse_package_type bytes = field 0 4 bytes

-- `PackageData(int)` with its fields set and its data written, and `PackageData(bytes, len)`.
unfoldable pub encode_data : DataPackage → List ℕ
encode_data d =
    le_bytes 4 (type_code data_package)
    ++ (le_bytes 8 d.package_id ++ (le_bytes 8 d.una ++ d.bytes))

unfoldable pub parse_data : List ℕ → DataPackage
parse_data bytes = record {
  package_id = field 4 8 bytes;
  una = field 12 8 bytes;
  bytes = drop 20 bytes;
}

abbrev pub encode_ids : List ℕ → List ℕ
encode_ids [] = []
encode_ids (id ∷ ids) = le_bytes 8 id ++ encode_ids ids

-- `PackageAck::load(max_ack, una, acklist)`, with `send_from` set, and `load(bytes, len)`.
unfoldable pub encode_ack : AckPackage → List ℕ
encode_ack a =
    le_bytes 4 (type_code ack)
    ++ (le_bytes 8 a.una
        ++ (le_bytes 8 a.send_from ++ (le_bytes 8 (length a.ack_list) ++ encode_ids a.ack_list)))

-- `ack_list[0]` to `ack_list[count - 1]`, whether or not the package is that long.
unfoldable pub read_ids : ℕ → List ℕ → List ℕ
read_ids zero bytes = []
read_ids (suc count) bytes = of_le (take 8 bytes) ∷ read_ids count (drop 8 bytes)

unfoldable pub parse_ack : List ℕ → AckPackage
parse_ack bytes = record {
  una = field 4 8 bytes;
  send_from = field 12 8 bytes;
  ack_list = read_ids (field 20 8 bytes) (drop 28 bytes);
}

-- `PackagePing`
unfoldable pub encode_ping : PingPackage → List ℕ
encode_ping p = le_bytes 4 (type_code ping) ++ ((if p.ping_back then 1 else 0) ∷ [])

unfoldable pub parse_ping : List ℕ → PingPackage
parse_ping bytes = record { ping_back = not (field 4 1 bytes == 0) }

-- `PackageConnectionCreate`, and its `download_speed`; the 32 bits of an `int`.
unfoldable pub encode_create : ℕ → List ℕ
encode_create download_speed = le_bytes 4 (type_code connection_create) ++ le_bytes 4 download_speed

unfoldable pub parse_create : List ℕ → ℕ
parse_create bytes = field 4 4 bytes

-- `PackageConnectionCreateR`: the port, then the speed.
unfoldable pub encode_create_r : ℕ → ℕ → List ℕ
encode_create_r download_speed port =
    le_bytes 4 (type_code connection_create_r) ++ (le_bytes 4 port ++ le_bytes 4 download_speed)

unfoldable pub parse_create_r : List ℕ → ℕ × ℕ
parse_create_r bytes = (field 8 4 bytes, field 4 4 bytes)

-- `PackageConnectionClose`: an empty struct takes a byte, which is left as it comes.
unfoldable pub encode_close : ℕ → List ℕ
encode_close memory = le_bytes 4 (type_code connection_close) ++ (memory ∷ [])
