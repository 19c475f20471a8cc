-- ===== src/Base/Net.antt =====
-- What the program's parts share of the C library's functions on addresses.
use Prim.Native.Nat.{ℕ}
use mathlib.Core.List.{List, [], ◌∷◌}
use mathlib.Core.Bool.{Bool, true, false, ◌&&◌}
use sharpvpn.Base.Tests.{◌==◌}

-- A string is the list of its characters.
abbrev pub Str : Type 0
Str = List ℕ

-- What `inet_pton` returns: 1 and an address, 0 for a string that is none, -1 for another family.
pub data Pton : Type 0 where
  address : ℕ → Pton
  invalid bad_family : Pton

-- The address that a call leaves in a struct that was cleared before it.
abbrev pub address_left : Pton → ℕ
address_left (address a) = a
address_left invalid = 0
address_left bad_family = 0

-- Whether two strings are the same.
abbrev pub same_string : Str → Str → Bool
same_string [] [] = true
same_string [] (y ∷ ys) = false
same_string (x ∷ xs) [] = false
same_string (x ∷ xs) (y ∷ ys) = (x == y) && same_string xs ys
