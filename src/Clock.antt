-- ===== src/Clock.antt =====
-- The times of src/rudp/TimeMarco.h, and the deadline of `ConditionVariable::wait_time` in
-- src/rudp/pthread_wrapper/ConditionVariable.cpp.
pub mod Deadline
mod Tests
use sharpvpn.Base.{ℕ, ◌+◌, ◌-◌, ◌*◌, ◌/◌, ◌%◌, ◌≤◌, ◌<◌, ◌^◌, ◌||◌, ltb, leb, if◌then◌else◌}

-- A `timeval`.
pub record TimeVal : Type 0 where
  pub tv_sec : ℕ
  pub tv_usec : ℕ

-- The macros for a difference, of a time and one that is not later: there the sum of the source,
-- whose second term may be negative and is divided towards 0, is not negative.
unfoldable pub get_us : TimeVal → TimeVal → ℕ
get_us a b =
    let seconds = (a.tv_sec - b.tv_sec) * 1000000 in
    if ltb a.tv_usec b.tv_usec
    then seconds - (b.tv_usec - a.tv_usec)
    else seconds + (a.tv_usec - b.tv_usec)

unfoldable pub get_ms : TimeVal → TimeVal → ℕ
get_ms a b =
    let seconds = (a.tv_sec - b.tv_sec) * 1000 in
    if ltb a.tv_usec b.tv_usec
    then seconds - (b.tv_usec - a.tv_usec) / 1000
    else seconds + (a.tv_usec - b.tv_usec) / 1000

-- The macro writes the seconds twice.
unfoldable pub set_time_ms : TimeVal → ℕ → TimeVal
set_time_ms tv m = record tv { tv_sec = m % 1000 }

-- A `timespec`, whose `tv_nsec` is the 64 bits of a `long`: from 2 ^ 63 on it is negative.
pub record TimeSpec : Type 0 where
  pub tv_sec : ℕ
  pub tv_nsec : ℕ

-- The time until which `wait_time` waits, `ts` milliseconds from now, where a `long` has 64 bits: the
-- product and the sum are those of `unsigned long`, the comparison is that of `long`.
unfoldable pub deadline : TimeSpec → ℕ → TimeSpec
deadline now ts =
    let nsec = (now.tv_nsec + ts * 1000000) % 2 ^ 64 in
    if ltb nsec 1000000000 || leb (2 ^ 63) nsec
    then record now { tv_nsec = nsec }
    else record { tv_sec = now.tv_sec + 1; tv_nsec = nsec - 1000000000 }
