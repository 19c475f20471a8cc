-- ===== src/RouteTable/Tests.antt =====
-- Runs of the route table's code on small inputs.
use sharpvpn.Base.{
  Str, Pton, address, invalid, ℕ, ◌+◌, ◌*◌, ◌-◌, ◌<◌, ◌≡◌, refl, List, [], ◌∷◌, map, false, ◌==◌,
  Option, some, ℤ, pos, All, length, arith,
}
use sharpvpn.RouteTable.{RouteRow, new_row, RouteTable, System, done}
use sharpvpn.RouteTable.Chnroute.{set_chnroute, set_default_as_tunnel}
use sharpvpn.RouteTable.Lines.{line_of, IsLine, IsClean}
use sharpvpn.RouteTable.Default.{zeros}
use sharpvpn.RouteTable.Default.Reading.{IsTableLine}

-- Decimal digits.
abbrev number : Str → ℕ → ℕ
number [] n = n
number (c ∷ s) n = number s (10 * n + (c - 48))

abbrev pub strtol : Str → ℤ
strtol s = pos (number s 0)

-- The lines `8/24` and `9/8`.
abbrev pub two_lines : List (Str × Str)
two_lines = ((b'8' ∷ []), (b'2' ∷ b'4' ∷ [])) ∷ ((b'9' ∷ []), (b'8' ∷ [])) ∷ []

abbrev pub memory : ℕ → ℕ
memory i = 0

pub two_lines-IsLine : All IsLine two_lines
two_lines-IsLine = (
  (
    ((omega arith, omega arith), tt),
    ((omega arith, omega arith), ((omega arith, omega arith), tt)),
    omega arith,
  ),
  ((((omega arith, omega arith), tt), ((omega arith, omega arith), tt), omega arith), tt),
)

pub memory-IsClean : IsClean memory 0 100
memory-IsClean k lo hi = omega arith

-- A kernel that does all it is asked, and addresses of one digit.
abbrev pub digit : Str → Pton
digit [] = invalid
digit (c ∷ s) = address (c - 48)

abbrev system : System
system = record { inet_pton = digit; htonl = λ n. n; ioctl = λ q. done }

abbrev pub files : Str → Option (List Str)
files name = some (map line_of two_lines)

abbrev default_row : RouteRow
default_row = record new_row { gateway = b'1' ∷ []; dev = b'e' ∷ [] }

abbrev table : RouteTable
table = record { modified = false; tunnel_gateway = []; default_gateway = []; default_dev = [] }

abbrev opened : RouteTable
opened = (set_chnroute system strtol files memory default_row (b'f' ∷ []) (b'7' ∷ []) table).table

abbrev up : RouteTable
up = (set_default_as_tunnel system (b't' ∷ []) (b'2' ∷ []) opened).table

-- A line of /proc/net/route for all addresses, its fields shortened.
abbrev fields : List Str
fields =
    (b'e' ∷ [])
    ∷ zeros
    ∷ (b'A' ∷ [])
    ∷ (b'3' ∷ [])
    ∷ (b'0' ∷ [])
    ∷ (b'0' ∷ [])
    ∷ (b'0' ∷ [])
    ∷ (b'B' ∷ [])
    ∷ []

abbrev route_line : Str
route_line =
    b'e' ∷ b'\t' ∷ b'0' ∷ b'0' ∷ b'0' ∷ b'0' ∷ b'0' ∷ b'0' ∷ b'0' ∷ b'0' ∷ b'\t' ∷ b'A' ∷ b'\t'
    ∷ b'3' ∷ b'\t' ∷ b'0' ∷ b'\t' ∷ b'0' ∷ b'\t' ∷ b'0' ∷ b'\t' ∷ b'B' ∷ b'\t' ∷ b'0' ∷ []

abbrev route_row : RouteRow
route_row = record new_row {
  dev = b'e' ∷ [];
  dst = zeros;
  gateway = b'A' ∷ [];
  netmask = b'B' ∷ [];
}

abbrev IsField : Str → Type 0
IsField f = All (λ c. (c == b'\t') ≡ false) f × (0 < length f)

letter-IsField : (c : ℕ) → (c == b'\t') ≡ false → IsField (c ∷ [])
letter-IsField c h = ((h, tt), omega arith)

zeros-IsField : IsField zeros
zeros-IsField = ((refl, (refl, (refl, (refl, (refl, (refl, (refl, (refl, tt)))))))), omega arith)

fields-IsField : All IsField fields
fields-IsField =
    let zero_field = letter-IsField b'0' refl in
    (
      letter-IsField b'e' refl,
      (
        zeros-IsField,
        (
          letter-IsField b'A' refl,
          (
            letter-IsField b'3' refl,
            (zero_field, (zero_field, (zero_field, (letter-IsField b'B' refl, tt)))),
          ),
        ),
      ),
    )

route_line-IsTableLine : IsTableLine route_line route_row
route_line-IsTableLine = record {
  arr = fields;
  last = [];
  c = b'0';
  splits = refl;
  fields = fields-IsField;
  last_plain = tt;
  c_plain = refl;
  fits = omega arith;
  gives = refl;
}

abbrev one_line : List (Str × RouteRow)
one_line = (route_line, route_row) ∷ []

abbrev id_hex : Str → Str
id_hex s = s
