-- ===== src/Socket/Control.antt =====
-- Connections and pings of src/rudp/ReliableSocket.cpp: the retries of `connect_addr`,
-- `get_free_port`, `send_package`, and what the sender and the receiver do about pings. Times are in
-- milliseconds, and the clock does not go back.
mod Tests
use sharpvpn.Base.{
  ℕ, zero, suc, ◌+◌, ◌-◌, ◌*◌, ◌%◌, ◌≤◌, ◌<◌, ◌≡◌, refl, ap, ◌∙◌, ltb, leb, ◌==◌, if◌then◌else◌,
  List, [], ◌∷◌, Bool, true, false, Option, none, some, is_some, min, max, arith, elem,
  Option-cases, inl, inr, Bool-cases,
}
use native.Mathlib.Nat.{add-zero, zero-add}
use sharpvpn.NetStruct.Ring
use sharpvpn.NetStruct.Ring.{Ring}
use sharpvpn.Package.{PingPackage}

-- The timeout and the time of the last ping.
pub record Control : Type 0 where
  pub rto : ℕ
  pub ping_send_time : ℕ
  pub package_count : ℕ

-- `set_rto`
abbrev pub rto_of : ℕ → ℕ
rto_of rtt = if ltb (2 * rtt) 30 then 30 else 2 * rtt

-- A `Ping` package: what is sent back, if anything, and the state after it.
unfoldable pub handle_ping : ℕ → PingPackage → Control → Option PingPackage × Control
handle_ping now p c =
    let lasting_time = now - c.ping_send_time in
    if p.ping_back
    then (none, if ltb lasting_time (2 * c.rto) then record c { rto = rto_of lasting_time } else c)
    else (some (record { ping_back = true }), c)

-- What the sender does about pings in a round: whether it sends one, and the state after it.
unfoldable pub ping_due : ℕ → Control → Bool × Control
ping_due now c =
    if (c.package_count + 1) % 50 == 0
    then (if ltb 20000 (now - c.ping_send_time)
        then (true, record c { ping_send_time = now; package_count = 0 })
        else (false, record c { package_count = 0 }))
    else (false, record c { package_count = c.package_count + 1 })

-- The loop of `connect_addr`: `answers` says what each wait of a second brings. The answer, and
-- how often the request was sent again.
unfoldable pub retry : (ℕ → Option (ℕ × ℕ)) → ℕ → ℕ → Option (ℕ × ℕ) × ℕ
retry answers zero count = (none, 0)
retry answers (suc rounds) count =
    let rest = retry answers rounds (count + 1) in
    elim (answers count) [ some r ↦ (some r, 0) | none ↦ (rest.0, rest.1 + 1) ]

-- `connect_addr` up to the connection: the speed to send at and the port, from the speed and the
-- port that the server answers; `none` where it returns -1.
unfoldable pub connect : (ℕ → Option (ℕ × ℕ)) → ℕ → Option (ℕ × ℕ)
connect answers upload_speed = elim ((retry answers 5 0).0) [
  | some (download_speed, port) ↦
      some (if ltb download_speed upload_speed then download_speed else upload_speed, port)
  | none ↦ none
]

-- The port, and `free_port_now` after the call.
unfoldable pub get_free_port : ℕ → ℕ × ℕ
get_free_port free_port_now = (free_port_now + 50020, (free_port_now + 1) % 100)

-- `none` where `send_package` returns -1.
unfoldable pub send_package : Bool → List ℕ → Ring (List ℕ) → Option (Ring (List ℕ))
send_package worker_running segment segment_list =
    if worker_running then some (Ring.push segment_list segment) else none

-- The loop takes the first answer there is within its rounds.
retry-first :
    (answers : ℕ → Option (ℕ × ℕ)) (rounds count k : ℕ) (r : ℕ × ℕ)
    → answers (count + k) ≡ some r
    → ((i : ℕ) → i < k → answers (count + i) ≡ none)
    → k < rounds
    → retry answers rounds count ≡ (some r, k)
unfolding retry
retry-first answers zero count k r e f h = absurd (omega (arith, h))
retry-first answers (suc rounds) count zero r e f h =
    let here : answers count ≡ some r = rw (add-zero) at e in ground (arith, here)
retry-first answers (suc rounds) count (suc k) r e f h =
    let here : answers count ≡ none = rw (add-zero) at (f 0 (omega arith)) in
    let rest =
      retry-first answers rounds (count + 1) k r (ap answers (shift count k) ∙ e)
        (λ i q. ap answers (shift count i) ∙ f (suc i) (omega (arith, q))) (omega (arith, h)) in
    ground (arith, here, rest)
  where
    shift : (c i : ℕ) → c + 1 + i ≡ c + suc i
    shift c i = omega arith

-- The request is sent again once for each second without an answer: the first answer that comes in
-- the `k`-th wait, for `k` up to the fourth counted from 0, is taken, and the speed is the lower of
-- the server's and the client's own.
pub connect-retry :
    (answers : ℕ → Option (ℕ × ℕ)) (upload_speed k : ℕ) (r : ℕ × ℕ)
    → answers k ≡ some r
    → ((i : ℕ) → i < k → answers i ≡ none)
    → k < 5
    → (connect answers upload_speed ≡ some (min r.0 upload_speed, r.1))
      × ((retry answers 5 0).1 ≡ k)
unfolding connect
connect-retry answers upload_speed k r e f h =
    let first = retry-first answers 5 0 k r (rw zero-add e) (λ i q. rw zero-add (f i q)) h in
    rw first (ground arith, refl)
