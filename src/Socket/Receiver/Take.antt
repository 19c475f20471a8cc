-- ===== src/Socket/Receiver/Take.antt =====
-- The four ways out of a round of `take_package`.
use sharpvpn.Base.{
  ℕ, suc, ◌≤◌, ◌<◌, ◌≡◌, inl, inr, true, false, none, some, Option-cases, Bool-cases,
}
use native.Mathlib.Decide.{dec_lt}
use native.Mathlib.Omega.{arith}
use sharpvpn.NetStruct.PackageMap
use sharpvpn.Package.{DataPackage}
use sharpvpn.Socket.State.{Socket, add64}
use sharpvpn.Socket.Receiver.{take_package, through_int, taken, waits, closed}

module _ (fuel : ℕ) (s : Socket) where
  -- The socket once the package of `recv_id` is taken, and once the id is passed over.
  abbrev pub once_taken : Socket
  once_taken = record s {
    recv_id = add64 s.recv_id 1;
    recv_pool = PackageMap.erase s.recv_pool (through_int s.recv_id);
  }

  abbrev pub once_passed : Socket
  once_passed = record s { recv_id = add64 s.recv_id 1 }

  pub take-found :
      (d : DataPackage)
      → PackageMap.find s.recv_pool s.recv_id ≡ some d
      → take_package (suc fuel) s ≡ some (taken d once_taken)
  unfolding take_package
  take-found d e = ground (arith, e)

  pub take-closed :
      PackageMap.find s.recv_pool s.recv_id ≡ none
      → s.worker_running ≡ false
      → take_package (suc fuel) s ≡ some (closed s)
  unfolding take_package
  take-closed e w = ground (arith, e, w)

  pub take-passes :
      PackageMap.find s.recv_pool s.recv_id ≡ none
      → s.worker_running ≡ true
      → s.recv_id < s.recv_ack_id
      → take_package (suc fuel) s ≡ take_package fuel once_passed
  unfolding take_package
  take-passes e w h = ground (arith, e, w, h)

  pub take-waits :
      PackageMap.find s.recv_pool s.recv_id ≡ none
      → s.worker_running ≡ true
      → s.recv_ack_id ≤ s.recv_id
      → take_package (suc fuel) s ≡ some (waits s)
  unfolding take_package
  take-waits e w h = ground (arith, e, w, h)

-- Which of the four it is.
pub data Round (s : Socket) : Type 0 where
  found : (d : DataPackage) → PackageMap.find s.recv_pool s.recv_id ≡ some d → Round s
  closing : PackageMap.find s.recv_pool s.recv_id ≡ none → s.worker_running ≡ false → Round s
  passing :
      PackageMap.find s.recv_pool s.recv_id ≡ none
      → s.worker_running ≡ true
      → s.recv_id < s.recv_ack_id
      → Round s
  waiting :
      PackageMap.find s.recv_pool s.recv_id ≡ none
      → s.worker_running ≡ true
      → s.recv_ack_id ≤ s.recv_id
      → Round s

pub Round-of : (s : Socket) → Round s
Round-of s = elim (Option-cases (PackageMap.find s.recv_pool s.recv_id)) [
  | inr (d, e) ↦ found d e
  | inl e ↦ elim (Bool-cases s.worker_running) [
    | inr w ↦ closing e w
    | inl w ↦ elim (dec_lt s.recv_id s.recv_ack_id) [
      | yes h ↦ passing e w h
      | no h ↦ waiting e w (omega arith)
    ]
  ]
]
