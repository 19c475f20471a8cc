-- ===== src/Socket/Rate.antt =====
-- `netstruct::Sleeper` of src/rudp/ReliableSocket.cpp, which keeps the sender to its speed. Times
-- are microseconds of a clock that does not go back.
mod Tests
use sharpvpn.Base.{
  ℕ, zero, suc, ◌+◌, ◌-◌, ◌*◌, ◌≤◌, ◌<◌, ◌≡◌, refl, ap, List, [], ◌∷◌, All, Bool, true, false, ltb,
  if◌then◌else◌, arith,
}
use native.Mathlib.Nat.{add-mul, suc-mul}
use native.Mathlib.Decide.{dec_lt}

pub record Sleeper : Type 0 where
  pub start : ℕ
  pub send_len : ℕ
  pub sleep_len : ℕ
  pub sleep_time : ℕ

-- The constructor and `init`.
abbrev pub new_sleeper : ℕ → ℕ → ℕ → Sleeper
new_sleeper sleep_len sleep_time now = record {
  start = now;
  send_len = 0;
  sleep_len = sleep_len;
  sleep_time = sleep_time;
}

-- `send_sleep` for the `len` bytes that the sender counted, at the time `now`: the state, and the time after it. `over` is by how
-- much the second look at the clock is later than the sleep asks for.
unfoldable pub send_sleep : ℕ → ℕ → ℕ → Sleeper → Sleeper × ℕ
send_sleep len now over s =
    let time_pass = now - s.start in
    let slept = if ltb time_pass s.sleep_time then s.sleep_time - time_pass else 0 in
    let later = now + slept + over in
    if ltb s.sleep_len (s.send_len + len)
    then (record s { start = later; send_len = 0 }, later)
    else (record s { send_len = s.send_len + len }, now)

-- A round of the sender: the bytes it counts (`list_package_count`), those of the copy of the fast
-- start, which it sends and does not count, how long the rest of it took, and `over`.
pub record Round : Type 0 where
  pub len : ℕ
  pub fast : ℕ
  pub took : ℕ
  pub over : ℕ

abbrev pub send_all : List Round → Sleeper × ℕ → Sleeper × ℕ
send_all [] (s, now) = (s, now)
send_all (r ∷ rounds) (s, now) = send_all rounds (send_sleep r.len (now + r.took) r.over s)

abbrev pub bytes : List Round → ℕ
bytes [] = 0
bytes (r ∷ rounds) = r.len + bytes rounds

-- All bytes of `Data` packages that the rounds send, copies included; the pings are not among them.
abbrev pub sent : List Round → ℕ
sent [] = 0
sent (r ∷ rounds) = r.len + r.fast + sent rounds

-- How many of them send a copy for the fast start.
abbrev pub fast_rounds : List Round → ℕ
fast_rounds [] = 0
fast_rounds (r ∷ rounds) = if ltb 0 r.fast then suc (fast_rounds rounds) else fast_rounds rounds

-- A round counts the bytes of a package at least once, and `m` bytes at most.
abbrev pub IsRound : ℕ → Round → Type 0
IsRound m r = (r.len ≤ m) × (r.fast ≤ r.len)

counted : (m : ℕ) (rounds : List Round) → All (IsRound m) rounds → All (λ r. r.len ≤ m) rounds
counted m [] h = tt
counted m (r ∷ rounds) h = (h.0.0, counted m rounds h.1)

sent_le :
    (m : ℕ) (rounds : List Round)
    → All (IsRound m) rounds
    → sent rounds ≤ bytes rounds + fast_rounds rounds * m
sent_le m [] h = omega arith
sent_le m (r ∷ rounds) h = ground (arith, h.0, sent_le m rounds h.1, suc-mul (fast_rounds rounds) m)

-- One call: no more than `sleep_len` is pending after it, the clock has not gone back, and where a
-- new interval began, at least `sleep_time` has passed since the last one did.
send_sleep_lem :
    (len now over m : ℕ) (s : Sleeper)
    → s.start ≤ now
    → len ≤ m
    → s.send_len ≤ s.sleep_len
    → let (s', later) = send_sleep len now over s in
      (n : ℕ) × (n ≤ 1)
      × (s.start + n * s.sleep_time ≤ s'.start)
      × (s.send_len + len ≤ n * (s.sleep_len + m) + s'.send_len)
      × (s'.start ≤ later)
      × (s'.send_len ≤ s'.sleep_len)
      × (s'.sleep_len ≡ s.sleep_len)
      × (s'.sleep_time ≡ s.sleep_time)
unfolding send_sleep
send_sleep_lem len now over m s h l k = elim (dec_lt s.sleep_len (s.send_len + len)) [
  | yes p ↦ (
    1,
    omega arith,
    ground (arith, p, h),
    ground (arith, p, h, l, k),
    ground (arith, p),
    ground (arith, p),
    ground (arith, p),
    ground (arith, p),
  )
  | no p ↦ (
    0,
    omega arith,
    ground (arith, p),
    ground (arith, p),
    ground (arith, p, h),
    ground (arith, p),
    ground (arith, p),
    ground (arith, p),
  )
]

-- What a run of rounds comes to: `n` intervals of at least `sleep_time` each.
record Within (m : ℕ) (s : Sleeper) (sent : ℕ) (s' : Sleeper) (later : ℕ) : Type 0 where
  n : ℕ
  passed : s.start + n * s.sleep_time ≤ s'.start
  sent_at_most : s.send_len + sent ≤ n * (s.sleep_len + m) + s'.send_len
  not_ahead : s'.start ≤ later
  pending : s'.send_len ≤ s.sleep_len

send_all-Within :
    (m : ℕ) (rounds : List Round) (s : Sleeper) (now : ℕ)
    → All (λ r. r.len ≤ m) rounds
    → s.start ≤ now
    → s.send_len ≤ s.sleep_len
    → let (s', later) = send_all rounds (s, now) in Within m s (bytes rounds) s' later
send_all-Within m [] s now h a p = record {
  n = 0;
  passed = omega arith;
  sent_at_most = omega arith;
  not_ahead = a;
  pending = p;
}
send_all-Within m (r ∷ rounds) s now h a p =
    let (s', later) = send_sleep r.len (now + r.took) r.over s in
    let (k, k_le, passed, sent, ahead, pending, same_len, same_time) =
      send_sleep_lem r.len (now + r.took) r.over m s (omega (arith, a)) h.0 p in
    let rest = send_all-Within m rounds s' later h.1 ahead (omega (arith, pending, same_len)) in
    let time : rest.n * s'.sleep_time ≡ rest.n * s.sleep_time = ap (λ t. rest.n * t) same_time in
    let len : rest.n * (s'.sleep_len + m) ≡ rest.n * (s.sleep_len + m) =
      ap (λ l. rest.n * (l + m)) same_len in
    record {
      n = k + rest.n;
      passed = omega (arith, passed, rest.passed, time, add-mul k rest.n s.sleep_time);
      sent_at_most =
          omega (arith, sent, rest.sent_at_most, len, add-mul k rest.n (s.sleep_len + m));
      not_ahead = rest.not_ahead;
      pending = omega (arith, rest.pending, same_len);
    }

-- However the rounds of the sender are timed: where none counts more than `m` bytes, nor fewer than
-- its copy for the fast start has, there is an `n` such that they last at least `n` times the
-- sleeping time, count at most `n + 1` times the length of an interval and `m`, and, pings aside,
-- send at most `m` bytes more than that for each of them that sends a copy for the fast start.
pub send_all_lem :
    (m sleep_len sleep_time now : ℕ) (rounds : List Round)
    → All (IsRound m) rounds
    → let (s, later) = send_all rounds (new_sleeper sleep_len sleep_time now, now) in
      (n : ℕ) × (now + n * sleep_time ≤ later)
      × (bytes rounds ≤ (n + 1) * (sleep_len + m))
      × (sent rounds ≤ (n + 1) * (sleep_len + m) + fast_rounds rounds * m)
send_all_lem m sleep_len sleep_time now rounds h =
    let w =
      send_all-Within m rounds (new_sleeper sleep_len sleep_time now) now (counted m rounds h)
        (omega arith) (omega arith) in
    let bound : bytes rounds ≤ (w.n + 1) * (sleep_len + m) =
      omega (arith, w.sent_at_most, w.pending, add-mul w.n 1 (sleep_len + m)) in
    (w.n, omega (arith, w.passed, w.not_ahead), bound, omega (arith, bound, sent_le m rounds h))
