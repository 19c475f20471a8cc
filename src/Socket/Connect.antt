-- ===== src/Socket/Connect.antt =====
-- The rest of `connect_addr` of src/rudp/ReliableSocket.cpp, once the server has answered, and the
-- functions that take the name of a host.
mod Tests
use sharpvpn.Base.{
  Str, ℕ, zero, suc, ◌+◌, ◌-◌, ◌≤◌, ◌<◌, ◌≡◌, ◌≢◌, refl, ap, ◌∙◌, Bool, true, false, Option, none,
  some, min, if◌then◌else◌, arith,
}
use native.Mathlib.Nat.{add-zero}
use sharpvpn.Socket.Control.{connect, connect-retry}

-- The family of an answer of `getaddrinfo`, and an address.
pub data Family : Type 0 where
  inet inet6 other : Family

pub record SockAddr : Type 0 where
  pub host : ℕ
  pub port : ℕ

pub record Info : Type 0 where
  pub family : Family
  pub host : ℕ

-- Whether it returns 0, and what is at `addr` after it: where it fails, what was there before.
unfoldable pub get_ipinfo : (Str → Option Info) → (ℕ → ℕ) → Str → ℕ → SockAddr → Bool × SockAddr
get_ipinfo getaddrinfo htons host port addr = elim (getaddrinfo host) [
  | none ↦ (false, addr)
  | some res ↦ elim res.family [
    | inet ↦ (true, record { host = res.host; port = htons port })
    | inet6 ↦ (true, record { host = res.host; port = htons port })
    | other ↦ (false, addr)
  ]
]

-- The address that `bind_addr` and `connect_addr` use, given a name: a failure is not looked at, and
-- `memory` is what their variable held.
abbrev pub address_used : (Str → Option Info) → (ℕ → ℕ) → Str → ℕ → SockAddr → SockAddr
address_used getaddrinfo htons host port memory = (get_ipinfo getaddrinfo htons host port memory).1

-- The loop over the ports of the control socket: the first that can be bound.
unfoldable pub bind_control : (ℕ → Bool) → ℕ → ℕ → Option ℕ
bind_control binds zero i = none
bind_control binds (suc rounds) i =
    let later = bind_control binds rounds (i + 1) in if binds i then some i else later

-- A connection: the speed to send at, the port to send to, and that of the control socket.
pub record Connected : Type 0 where
  pub send_speed : ℕ
  pub port : ℕ
  pub control_port : ℕ
  pub worker_running : Bool

-- `connect_addr`; `none` where it returns -1.
unfoldable pub connect_addr : (ℕ → Option (ℕ × ℕ)) → (ℕ → Bool) → ℕ → Option Connected
connect_addr answers binds upload_speed = elim (connect answers upload_speed) [
  | none ↦ none
  | some (speed, port) ↦ elim (bind_control binds 10 2000) [
    | none ↦ none
    | some control ↦
        some (record {
          send_speed = speed;
          port = port;
          control_port = control;
          worker_running = true;
        })
  ]
]

bind_control-first :
    (binds : ℕ → Bool) (rounds i k : ℕ)
    → binds (i + k) ≡ true
    → ((j : ℕ) → j < k → binds (i + j) ≡ false)
    → k < rounds
    → bind_control binds rounds i ≡ some (i + k)
unfolding bind_control
bind_control-first binds zero i k e f h = absurd (omega (arith, h))
bind_control-first binds (suc rounds) i zero e f h =
    let here : binds i ≡ true = rw (add-zero) at e in ground (arith, here)
bind_control-first binds (suc rounds) i (suc k) e f h =
    let here : binds i ≡ false = rw (add-zero) at (f 0 (omega arith)) in
    let rest =
      bind_control-first binds rounds (i + 1) k (ap binds (shift i k) ∙ e)
        (λ j q. ap binds (shift i j) ∙ f (suc j) (omega (arith, q))) (omega (arith, h)) in
    ground (arith, here, rest)
  where
    shift : (i k : ℕ) → i + 1 + k ≡ i + suc k
    shift i k = omega arith

-- Where the server answers in one of the first five waits, and one of the ports 2000 to 2009 can be
-- bound, `connect_addr` connects: to the port of the first answer, at the lower of the two speeds,
-- with the first of those ports for its control socket.
pub connect_addr_lem :
    (answers : ℕ → Option (ℕ × ℕ)) (binds : ℕ → Bool) (upload_speed k j : ℕ) (r : ℕ × ℕ)
    → answers k ≡ some r
    → ((i : ℕ) → i < k → answers i ≡ none)
    → k < 5
    → binds (2000 + j) ≡ true
    → ((i : ℕ) → i < j → binds (2000 + i) ≡ false)
    → j < 10
    → connect_addr answers binds upload_speed
      ≡ some (record {
        send_speed = min r.0 upload_speed;
        port = r.1;
        control_port = 2000 + j;
        worker_running = true;
      })
unfolding connect_addr
connect_addr_lem answers binds upload_speed k j r e f h b c l = ground (
  arith,
  (connect-retry answers upload_speed k r e f h).0,
  bind_control-first binds 10 2000 j b c l,
)
