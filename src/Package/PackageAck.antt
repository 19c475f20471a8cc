-- ===== src/Package/PackageAck.antt =====
-- `PackageAck::load` of src/rudp/Package.h, and the loop of the ack sender in
-- src/rudp/ReliableSocket.cpp that calls it.
pub mod Batches
pub mod Refine
mod Tests
use sharpvpn.Base.{
  ℕ, zero, suc, ◌+◌, ◌-◌, ltb, leb, if◌then◌else◌, List, [], ◌∷◌, Bool, true, false, ◌||◌,
}
use sharpvpn.Package.AckQueue
use sharpvpn.Package.AckQueue.{AckQueue}

-- The loop of `load`, from the entry it stands at: `room` entries are left. Ids up to `una` are
-- dropped. Each round pops one id, so the size of the queue bounds the rounds.
unfoldable pub load_ids : ℕ → ℕ → ℕ → AckQueue → List ℕ × AckQueue
load_ids zero room una acklist = ([], acklist)
load_ids (suc fuel) room una acklist =
    let (ack_id, popped) = AckQueue.pop acklist in
    let kept = load_ids fuel (room - 1) una popped in
    let dropped = load_ids fuel room una popped in
    if leb room 0 || leb (AckQueue.size acklist) 0
    then ([], acklist)
    else (if ltb una ack_id then (ack_id ∷ kept.0, kept.1) else dropped)

-- The ids that go into the package, and what is left of the queue.
unfoldable pub load : ℕ → ℕ → AckQueue → List ℕ × AckQueue
load max_ack una acklist = load_ids (AckQueue.size acklist) max_ack una acklist

-- `while (ack_read_list.size())`: the lists of ids that are sent. `una` may change from one round
-- to the next, as the receiver thread goes on; `round` counts them.
unfoldable pub ack_rounds : ℕ → (ℕ → ℕ) → ℕ → AckQueue → List (List ℕ)
ack_rounds zero una round q = []
ack_rounds (suc fuel) una round q =
    let (ids, rest) = load 35 (una round) q in
    let later = ack_rounds fuel una (suc round) rest in
    if leb (AckQueue.size q) 0 then [] else ids ∷ later
