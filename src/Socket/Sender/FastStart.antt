-- ===== src/Socket/Sender/FastStart.antt =====
-- The fast start: the first packages go out once more than they otherwise would.
use sharpvpn.Base.{
  ℕ, ◌+◌, ◌-◌, ◌<◌, ◌≡◌, refl, List, [], ◌∷◌, Option, none, some, true, false, min, arith, length,
  ◌==◌, Bool-cases, if◌then◌else◌, Option-cases, inl, inr,
}
use sharpvpn.NetStruct.PackageQueueMap
use sharpvpn.Socket.Sender.{Sender, Sending, send_next, send_popped}
use sharpvpn.Socket.State.{Socket}

-- Rounds of the main sender, each at a time of its own, after whatever the other threads did to the
-- socket; and what they sent.
unfoldable pub send_rounds : (ℕ → Socket → Socket) → List ℕ → Sender → List Sending
send_rounds others [] s = []
send_rounds others (now ∷ times) s =
    let round = send_next now (record s { socket = others now s.socket }) in
    let later = send_rounds others times round.1 in
    elim (round.0) [ none ↦ later | some sending ↦ sending ∷ later ]

abbrev pub fast_total : List Sending → ℕ
fast_total [] = 0
fast_total (x ∷ xs) = x.fast_copies + fast_total xs

-- How many packages of the fast start are to come.
abbrev pub fast_left : Sender → ℕ
fast_left s = if s.fast_start then 10 - s.fast_start_count else 0

-- What a round does to the fast start.
record Fast (s : Sender) (r : Option Sending × Sender) : Type 0 where
  pub in_range : r.1.fast_start_count < 10
  pub nothing : r.0 ≡ none → fast_left r.1 ≡ fast_left s
  pub something :
      (x : Sending)
      → r.0 ≡ some x
      → (x.fast_copies ≡ min 1 (fast_left s)) × (fast_left r.1 ≡ fast_left s - 1)

popped-Fast :
    (now address : ℕ) (s : Sender)
    → s.fast_start_count < 10
    → let r = send_popped now address s in Fast s (some r.0, r.1)
unfolding send_popped
popped-Fast now address s h = record {
  in_range = ground arith;
  nothing = λ e. ground (arith, e);
  something = λ x e. ground (arith, e);
}

idle-Fast :
    (s : Sender) (f : Sender)
    → f.fast_start_count ≡ s.fast_start_count
    → f.fast_start ≡ s.fast_start
    → s.fast_start_count < 10
    → Fast s (none, f)
idle-Fast s f c b h = record {
  in_range = omega (arith, c, h);
  nothing = λ e. ground (arith, b, c);
  something = λ x e. absurd (none-some x e);
}
  where
    none-some : (x : Sending) → ◌≡◌ {A = Option Sending} none (some x) → ⊥
    none-some x e = ground (arith, e)

-- The sender once a round has popped from the pool.
abbrev once_popped : Sender → Sender
once_popped s = record s {
  socket = record (s.socket) { send_pool = (PackageQueueMap.pop s.socket.send_pool).1 };
}

next-empty :
    (now : ℕ) (s : Sender)
    → (PackageQueueMap.size s.socket.send_pool == 0) ≡ true
    → send_next now s ≡ (none, s)
unfolding send_next
next-empty now s e = rw e

next-null :
    (now : ℕ) (s : Sender)
    → (PackageQueueMap.size s.socket.send_pool == 0) ≡ false
    → (PackageQueueMap.pop s.socket.send_pool).0 ≡ none
    → send_next now s ≡ (none, once_popped s)
unfolding send_next
next-null now s e n = rw (e, n)

next-some :
    (now address : ℕ) (s : Sender)
    → (PackageQueueMap.size s.socket.send_pool == 0) ≡ false
    → (PackageQueueMap.pop s.socket.send_pool).0 ≡ some address
    → send_next now s ≡ (let r = send_popped now address (once_popped s) in (some r.0, r.1))
unfolding send_next
next-some now address s e n = rw (e, n)

next-Fast : (now : ℕ) (s : Sender) → s.fast_start_count < 10 → Fast s (send_next now s)
next-Fast now s h = elim (Bool-cases (PackageQueueMap.size s.socket.send_pool == 0)) [
  | inl e ↦ rw (next-empty now s e) (idle-Fast s s refl refl h)
  | inr e ↦ elim (Option-cases (PackageQueueMap.pop s.socket.send_pool).0) [
    | inl n ↦ rw (next-null now s e n) (idle-Fast s (once_popped s) refl refl h)
    | inr (address, n) ↦
        let f = popped-Fast now address (once_popped s) h in
        rw (next-some now address s e n)
          (record { in_range = f.in_range; nothing = f.nothing; something = f.something })
  ]
]

-- Over any rounds of the main sender, whatever the other threads do between them, the packages of
-- the fast start that are left when the rounds begin, ten for a new socket, go out once more, and
-- no others.
pub send_rounds-fast_total :
    (others : ℕ → Socket → Socket) (times : List ℕ) (s : Sender)
    → s.fast_start_count < 10
    → fast_total (send_rounds others times s)
      ≡ min (length (send_rounds others times s)) (fast_left s)
unfolding send_rounds
send_rounds-fast_total others [] s h = ground arith
send_rounds-fast_total others (now ∷ times) s h =
    let now_s = record s { socket = others now s.socket } in
    let round = send_next now now_s in
    let f = next-Fast now now_s h in
    let later = send_rounds-fast_total others times round.1 f.in_range in
    elim (Option-cases round.0) [
      | inl n ↦ ground (arith, n, later, f.nothing n)
      | inr (x, e) ↦ ground (arith, e, later, f.something x e)
    ]
