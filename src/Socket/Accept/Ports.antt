-- ===== src/Socket/Accept/Ports.antt =====
-- The ports and the speeds of new connections.
use sharpvpn.Base.{
  ℕ, zero, suc, ◌+◌, ◌-◌, ◌%◌, ◌<◌, ◌≡◌, ◌≢◌, refl, sym, ap, ◌∙◌, ◌⊎◌, inl, inr, Bool, true, false,
  Option, none, some, min, ltb, if◌then◌else◌, arith, Bool-cases,
}
use native.Mathlib.Decide.{dec_lt}
use sharpvpn.Socket.Control.{get_free_port, connect, connect-retry}
use sharpvpn.Socket.Accept.{
  Listener, acceptable_socket, connection_create, Accepted, find_port, connected_socket,
  accept_connection,
}

-- The first port that can be bound, counted from `now` around the hundred.
pub record First (binds : ℕ → Bool) (now k : ℕ) : Type 0 where
  pub bound : binds ((now + k) % 100 + 50020) ≡ true
  pub earlier : (i : ℕ) → i < k → binds ((now + i) % 100 + 50020) ≡ false

find_port-First :
    (binds : ℕ → Bool) (fuel now k : ℕ)
    → now < 100
    → k < fuel
    → First binds now k
    → find_port binds fuel now ≡ some ((now + k) % 100 + 50020, ((now + k) % 100 + 1) % 100)
unfolding find_port get_free_port
find_port-First binds zero now k n h f = absurd (omega (arith, h))
find_port-First binds (suc fuel) now zero n h f =
    let here : (now + 0) % 100 ≡ now = omega (arith, n) in
    rw here (ground (arith, rw here at f.bound))
find_port-First binds (suc fuel) now (suc k) n h f =
    let here : (now + 0) % 100 ≡ now = omega (arith, n) in
    let taken : binds (now + 50020) ≡ false = rw here at (f.earlier 0 (omega arith)) in
    let later =
      find_port-First binds fuel ((now + 1) % 100) k (omega arith) (omega (arith, h)) (record {
        bound = ap (λ p. binds (p + 50020)) (around now k) ∙ f.bound;
        earlier = λ i lt.
            ap (λ p. binds (p + 50020)) (around now i) ∙ f.earlier (suc i) (omega (arith, lt));
      }) in
    ground (arith, taken, later, around now k)
  where
    around : (now i : ℕ) → ((now + 1) % 100 + i) % 100 ≡ (now + suc i) % 100
    around now i = omega arith

-- Where no port can be bound the loop does not end, whatever the fuel.
pub find_port_stuck :
    (binds : ℕ → Bool) (fuel now : ℕ)
    → ((p : ℕ) → binds p ≡ false)
    → find_port binds fuel now ≡ none
unfolding find_port
find_port_stuck binds zero now h = refl
find_port_stuck binds (suc fuel) now h =
    ground (arith, h (get_free_port now).0, find_port_stuck binds fuel (get_free_port now).1 h)

-- Either some port is the first that can be bound within `count`, or none of them can.
port_cases :
    (binds : ℕ → Bool) (now count : ℕ)
    → ((k : ℕ) × (k < count) × First binds now k)
      ⊎ ((i : ℕ) → i < count → binds ((now + i) % 100 + 50020) ≡ false)
port_cases binds now zero = inr (λ i h. absurd (omega (arith, h)))
port_cases binds now (suc count) = elim (port_cases binds now count) [
  | inl (k, h, f) ↦ inl (k, omega (arith, h), f)
  | inr none_yet ↦ elim (Bool-cases (binds ((now + count) % 100 + 50020))) [
    | inl e ↦ inl (count, omega arith, record { bound = e; earlier = none_yet })
    | inr e ↦ inr (λ i h. elim (dec_lt i count) [
      | yes lt ↦ none_yet i lt
      | no ge ↦ ap (λ j. binds ((now + j) % 100 + 50020)) (same i count h ge) ∙ e
    ])
  ]
]
  where
    same : (i count : ℕ) → i < suc count → ¬ (i < count) → i ≡ count
    same i count h k = omega (arith, h, k)

find_port_ends :
    (binds : ℕ → Bool) (now i : ℕ)
    → now < 100
    → i < 100
    → binds (i + 50020) ≡ true
    → (m : ℕ) × First binds now m
      × (find_port binds 100 now ≡ some ((now + m) % 100 + 50020, ((now + m) % 100 + 1) % 100))
find_port_ends binds now i n h b = elim (port_cases binds now 100) [
  | inl (m, lt, f) ↦ (m, f, find_port-First binds 100 now m n lt f)
  | inr none_free ↦ absurd (
      clash (
        sym (none_free ((i + 100 - now) % 100) (omega arith))
        ∙ ap (λ p. binds (p + 50020)) (around now i n h)
        ∙ b))
]
  where
    around : (now i : ℕ) → now < 100 → i < 100 → (now + (i + 100 - now) % 100) % 100 ≡ i
    around now i n h = omega (arith, n, h)

    clash : false ≢ true
    clash e = ground (arith, e)

-- What a client receives that is answered in the `k`-th wait.
abbrev pub late : ℕ → ℕ × ℕ → ℕ → Option (ℕ × ℕ)
late k reply j = if ltb j k then none else some reply

late_after : (k : ℕ) (reply : ℕ × ℕ) → late k reply k ≡ some reply
late_after k reply = ground arith

late_before : (k : ℕ) (reply : ℕ × ℕ) (j : ℕ) → j < k → late k reply j ≡ none
late_before k reply j h = ground (arith, h)

-- A request for a connection, where one of the ports 50020 to 50119 can be bound: within a hundred
-- rounds a socket is made on the first such port from `free_port_now` on, around the hundred. Both
-- ends send at no more than the server's upload speed: the server at the lower of that and the
-- client's download speed, and the client, whose request is answered in the `k`-th wait, at the
-- lowest of those two and its own upload speed; the server's download speed does not count.
pub connect-accept_connection :
    (binds : ℕ → Bool) (l : Listener) (download_speed upload_speed i k : ℕ)
    → l.socket_type ≡ acceptable_socket
    → l.free_port_now < 100
    → i < 100
    → binds (i + 50020) ≡ true
    → k < 5
    → (a : Accepted) × (l' : Listener) × (m : ℕ) × (accept_connection binds 100
          (some (connection_create download_speed))
          l
        ≡ some (some a, l'))
      × First binds l.free_port_now m
      × (a.port ≡ (l.free_port_now + m) % 100 + 50020)
      × (a.send_speed ≡ min download_speed l.upload_speed)
      × (connect (late k a.reply) upload_speed
          ≡ some (min (min download_speed l.upload_speed) upload_speed, a.port))
      × (l'.free_port_now < 100)
unfolding accept_connection
connect-accept_connection binds l download_speed upload_speed i k t n h b q =
    let (m, first, e) = find_port_ends binds l.free_port_now i n h b in
    let port = (l.free_port_now + m) % 100 + 50020 in
    let speed = if ltb download_speed l.upload_speed then download_speed else l.upload_speed in
    let speed_min : speed ≡ min download_speed l.upload_speed = ground arith in
    let answered =
      connect-retry (late k (speed, port)) upload_speed k (speed, port) (late_after k (speed, port))
        (late_before k (speed, port)) q in
    (
      connected_socket speed port (speed, port),
      record l { free_port_now = ((l.free_port_now + m) % 100 + 1) % 100 },
      m,
      ground (arith, t, e),
      first,
      refl,
      speed_min,
      answered.0 ∙ ap (λ s. some (min s upload_speed, port)) speed_min,
      omega arith,
    )
