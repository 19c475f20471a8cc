-- ===== src/Vpn/Forward.antt =====
-- The loop of `func_socket` in src/SharpVpn.cpp that writes what a socket receives to the tunnel,
-- and what the thread does after it.
use sharpvpn.Base.{
  ℕ, suc, ◌≡◌, refl, ap, List, [], ◌∷◌, Bool, true, false, ◌&&◌, if◌then◌else◌, arith,
}
use sharpvpn.Vpn.Lifecycle.{Vpn, World, stop, is_server}

-- What errno says after a call that returned -1: one of the values that are let pass, or another.
pub data Errno : Type 0 where
  try_again unreachable other : Errno

-- What `recv_package` returns: -1, or the bytes of a segment.
pub data Received : Type 0 where
  failed : Errno → Received
  segment : List ℕ → Received

-- The calls of `tunnel->write`: the bytes of a segment, or the buffer with the size -1, which as a
-- `size_t` is 2 ^ 64 - 1.
pub data Write : Type 0 where
  bytes : List ℕ → Write
  whole_memory : Write

abbrev passes : Errno → Bool
passes try_again = true
passes unreachable = true
passes other = false

-- The loop, over what `recv_package` returns while the socket lives.
unfoldable pub forward : List Received → List Write
forward [] = []
forward (failed e ∷ results) =
    let rest = forward results in if passes e then whole_memory ∷ rest else []
forward (segment [] ∷ results) = forward results
forward (segment (x ∷ xs) ∷ results) = bytes (x ∷ xs) ∷ forward results

-- The whole thread: what it writes, and the VPN, which the thread of a client stops.
unfoldable pub func_socket : World → List Received → Vpn → List Write × Vpn
func_socket w results v = (forward results, if is_server v.args.mode then v else stop w v)

-- The results up to the first that ends the loop.
abbrev pub before_end : List Received → List Received
before_end [] = []
before_end (failed other ∷ results) = []
before_end (failed try_again ∷ results) = failed try_again ∷ before_end results
before_end (failed unreachable ∷ results) = failed unreachable ∷ before_end results
before_end (segment s ∷ results) = segment s ∷ before_end results

-- The segments of a list that hold a byte.
abbrev pub segments : List Received → List (List ℕ)
segments [] = []
segments (failed e ∷ results) = segments results
segments (segment [] ∷ results) = segments results
segments (segment (x ∷ xs) ∷ results) = (x ∷ xs) ∷ segments results

abbrev pub failures : List Received → ℕ
failures [] = 0
failures (failed e ∷ results) = suc (failures results)
failures (segment s ∷ results) = failures results

-- The segments that were written, and how often the buffer was written with the size -1.
abbrev pub written : List Write → List (List ℕ)
written [] = []
written (bytes s ∷ writes) = s ∷ written writes
written (whole_memory ∷ writes) = written writes

abbrev pub overruns : List Write → ℕ
overruns [] = 0
overruns (bytes s ∷ writes) = overruns writes
overruns (whole_memory ∷ writes) = suc (overruns writes)

forward_lem :
    (results : List Received)
    → (written (forward results) ≡ segments (before_end results))
      × (overruns (forward results) ≡ failures (before_end results))
unfolding forward
forward_lem [] = (refl, refl)
forward_lem (failed other ∷ results) = (refl, refl)
forward_lem (failed try_again ∷ results) = let r = forward_lem results in (r.0, ap suc r.1)
forward_lem (failed unreachable ∷ results) = let r = forward_lem results in (r.0, ap suc r.1)
forward_lem (segment [] ∷ results) = forward_lem results
forward_lem (segment (x ∷ xs) ∷ results) =
    let r = forward_lem results in (ap (◌∷◌ (x ∷ xs)) r.0, r.1)

-- Up to the first error that ends the loop, the tunnel is written every segment that holds a byte,
-- in the order in which they were received, and nothing else but that each error that is let pass
-- has the buffer written once more, with the size -1. The VPN is then as `stop` leaves it where
-- it is a client's, so that it does not run, and as it was where it is a server's.
pub func_socket_lem :
    (w : World) (results : List Received) (v : Vpn)
    → let (writes, v') = func_socket w results v in
      (written writes ≡ segments (before_end results))
      × (overruns writes ≡ failures (before_end results))
      × (v' ≡ (if is_server v.args.mode then v else stop w v))
      × (v'.running ≡ (is_server v.args.mode && v.running))
unfolding func_socket stop
func_socket_lem w results v = ((forward_lem results).0, (forward_lem results).1, refl, ground arith)
