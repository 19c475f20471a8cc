-- ===== src/PackageParser/Tests.antt =====
-- The classification at a concrete package.
use sharpvpn.Base.{ℕ, zero, suc, ◌==◌, ◌/◌, ◌≡◌, not, ◌&&◌, leb, arith}
use sharpvpn.PackageParser.{is_sent_on, is_sent_on_lem}

-- An IPv4 package to 10.0.0.10, in every byte that is read but the first.
abbrev raw_package : ℕ → ℕ
raw_package zero = 69
raw_package (suc i) = 10

is_sent_on_lem_example : is_sent_on raw_package ≡ ((69 / 16 == 4) && not (leb 224 10 && leb 10 239))
is_sent_on_lem_example = is_sent_on_lem raw_package (omega arith) (omega arith)
