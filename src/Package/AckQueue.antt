-- ===== src/Package/AckQueue.antt =====
-- `AckQueue` of src/rudp/Package.h: the ids of the packages to acknowledge. Its operations are those
-- of `Ring`; `pop` of an empty queue returns 0.
use sharpvpn.Base.{ℕ, Option, none, some}
use sharpvpn.NetStruct.Ring
use sharpvpn.NetStruct.Ring.{Ring}

abbrev pub AckQueue : Type 0
AckQueue = Ring ℕ

abbrev id_or_zero : Option ℕ → ℕ
id_or_zero none = 0
id_or_zero (some id) = id

unfoldable pub push : AckQueue → ℕ → AckQueue
push q id = Ring.push q id

unfoldable pub pop : AckQueue → ℕ × AckQueue
pop q = let (id, rest) = Ring.pop q in (id_or_zero id, rest)

unfoldable pub rebase : AckQueue → AckQueue
rebase q = Ring.rebase q

unfoldable pub size : AckQueue → ℕ
size q = Ring.size q
