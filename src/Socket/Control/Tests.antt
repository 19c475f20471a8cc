-- ===== src/Socket/Control/Tests.antt =====
-- A connection that is answered in the third wait.
use sharpvpn.Base.{ℕ, ◌==◌, if◌then◌else◌, Option, none, some}

abbrev third_wait : ℕ → Option (ℕ × ℕ)
third_wait i = if i == 2 then some (80, 50021) else none
