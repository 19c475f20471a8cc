-- ===== src/Socket/Sender/AckTick.antt =====
-- What a tick of the ack sender sends.
use sharpvpn.Base.{
  ℕ, suc, ◌≤◌, ◌≡◌, refl, ap, ◌∙◌, List, [], ◌∷◌, ◌++◌, All, arith, length, keep, ltb, flatten,
}
use sharpvpn.NetStruct.Ring
use sharpvpn.NetStruct.Ring.{contents}
use sharpvpn.NetStruct.Ring.Contents.{rebase-IsValid}
use sharpvpn.Package.{AckPackage}
use sharpvpn.Package.AckQueue
use sharpvpn.Package.PackageAck.Refine.{ack_rounds_lem}
use sharpvpn.Socket.Sender.{ack_tick, ack_packages}
use sharpvpn.Socket.State.{Socket}

-- The ids that packages acknowledge, one package after the other.
abbrev pub acks_of : List AckPackage → List ℕ
acks_of [] = []
acks_of (a ∷ packages) = a.ack_list ++ acks_of packages

acks_of-ack_packages :
    (una from : ℕ → ℕ) (round : ℕ) (rounds : List (List ℕ))
    → acks_of (ack_packages una from round rounds) ≡ flatten rounds
unfolding ack_packages
acks_of-ack_packages una from round [] = refl
acks_of-ack_packages una from round (ids ∷ rounds) =
    ap (◌++◌ ids) (acks_of-ack_packages una from (suc round) rounds)

short-ack_packages :
    (una from : ℕ → ℕ) (round : ℕ) (rounds : List (List ℕ))
    → All (λ ids. length ids ≤ 35) rounds
    → All (λ a. length a.ack_list ≤ 35) (ack_packages una from round rounds)
unfolding ack_packages
short-ack_packages una from round [] h = tt
short-ack_packages una from round (ids ∷ rounds) h =
    (h.0, short-ack_packages una from (suc round) rounds h.1)

-- A tick empties a valid queue: every id in it that is above what `recv_ack_id` is meanwhile goes
-- out in an `Ack` package, as often as it was queued and in order, and no package has more than 35
-- ids.
pub ack_tick_lem :
    (una from : ℕ → ℕ) (bound : ℕ) (s : Socket)
    → Ring.IsValid s.ack_send_queue
    → ((r : ℕ) → una r ≤ bound)
    → let r = ack_tick una from s in
      (keep (ltb bound) (acks_of r.0) ≡ keep (ltb bound) (contents s.ack_send_queue))
      × All (λ a. length a.ack_list ≤ 35) r.0
      × (contents r.1.ack_send_queue ≡ [])
      × Ring.IsValid r.1.ack_send_queue
unfolding ack_tick AckQueue.size AckQueue.rebase Ring.size
ack_tick_lem una from bound s v b =
    let q = s.ack_send_queue in
    let sent = ack_rounds_lem q.len una bound 0 q v (omega arith) b in
    (
      ap (keep (ltb bound)) (acks_of-ack_packages una from 0 _) ∙ sent.1,
      short-ack_packages una from 0 _ sent.0,
      unfold Ring.rebase in refl,
      rebase-IsValid q v,
    )
