-- ===== src/Clock/Deadline.antt =====
-- How exact the times are.
use sharpvpn.Base.{ℕ, ◌+◌, ◌*◌, ◌^◌, ◌≤◌, ◌<◌, ◌≡◌, ◌↔◌, arith}
use sharpvpn.Clock.{TimeVal, get_us, get_ms, TimeSpec, deadline}

-- All of a time in its smallest unit.
abbrev pub total_us : TimeVal → ℕ
total_us t = t.tv_sec * 1000000 + t.tv_usec

abbrev pub total_ns : TimeSpec → ℕ
total_ns t = t.tv_sec * 1000000000 + t.tv_nsec

-- Of two times whose microseconds are below a million, the second not later than the first, `get_us`
-- is the difference, and `get_ms` is less than a millisecond off.
pub get_ms_lem :
    (a b : TimeVal)
    → a.tv_usec < 1000000
    → b.tv_usec < 1000000
    → total_us b ≤ total_us a
    → (total_us b + get_us a b ≡ total_us a)
      × (get_us a b < get_ms a b * 1000 + 1000)
      × (get_ms a b * 1000 < get_us a b + 1000)
unfolding get_us get_ms
get_ms_lem a b ha hb h = ground (arith, ha, hb, h)

-- From a time whose nanoseconds are below a billion, and as long as they and those of the
-- milliseconds are below 2 ^ 63, the deadline is `ts` milliseconds later, but only one second is
-- carried: the nanoseconds are valid, which `pthread_cond_timedwait` asks for, exactly if they and
-- those of the milliseconds are below two billion.
pub deadline_lem :
    (now : TimeSpec) (ts : ℕ)
    → now.tv_nsec < 1000000000
    → now.tv_nsec + ts * 1000000 < 2 ^ 63
    → (total_ns (deadline now ts) ≡ total_ns now + ts * 1000000)
      × (((deadline now ts).tv_nsec < 1000000000) ↔ (now.tv_nsec + ts * 1000000 < 2000000000))
unfolding deadline
deadline_lem now ts h b =
    (ground (arith, h, b), ((λ p. ground (arith, h, b, p)), (λ p. ground (arith, h, b, p))))
