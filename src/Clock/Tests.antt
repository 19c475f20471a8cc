-- ===== src/Clock/Tests.antt =====
-- Two times, and a wait of a second and a half.
use sharpvpn.Base.{◌+◌, ◌*◌, ◌<◌, ◌≡◌, ◌↔◌, refl, arith}
use sharpvpn.Clock.{TimeVal, get_ms, TimeSpec, deadline}
use sharpvpn.Clock.Deadline.{total_ns, deadline_lem}

abbrev earlier : TimeVal
earlier = record { tv_sec = 7; tv_usec = 999500 }

abbrev later : TimeVal
later = record { tv_sec = 8; tv_usec = 200 }

get_ms_carries : get_ms later earlier ≡ 1
unfolding get_ms
get_ms_carries = refl

abbrev now : TimeSpec
now = record { tv_sec = 7; tv_nsec = 600000000 }

deadline_lem_example :
    (total_ns (deadline now 1500) ≡ total_ns now + 1500 * 1000000)
    × (((deadline now 1500).tv_nsec < 1000000000) ↔ (600000000 + 1500 * 1000000 < 2000000000))
deadline_lem_example = deadline_lem now 1500 (omega arith) (omega arith)
