-- ===== src/Package/PackageAck/Tests.antt =====
-- The loading of ids to acknowledge, at concrete inputs.
use sharpvpn.Base.{◌≡◌, refl, [], ◌∷◌, arith}
use sharpvpn.NetStruct.Ring
use sharpvpn.NetStruct.Ring.{contents}
use sharpvpn.NetStruct.Ring.Contents.{init-IsValid, push_lem}
use sharpvpn.Package.AckQueue
use sharpvpn.Package.AckQueue.{AckQueue}
use sharpvpn.Package.PackageAck.{load_ids, load}

abbrev three_ids : AckQueue
three_ids = Ring.push (Ring.push (Ring.push (Ring.init (λ _. 0) 5) 4) 2) 6

three_ids-IsValid : Ring.IsValid three_ids
unfolding Ring.init Ring.push
three_ids-IsValid =
    let zero_ids = init-IsValid (λ _. 0) 5 (omega arith) in
    let one_id = (push_lem (Ring.init (λ _. 0) 5) 4 zero_ids (omega arith)).0 in
    let two_ids = (push_lem (Ring.push (Ring.init (λ _. 0) 5) 4) 2 one_id (omega arith)).0 in
    (push_lem (Ring.push (Ring.push (Ring.init (λ _. 0) 5) 4) 2) 6 two_ids (omega arith)).0

-- Id 2 is not above 3, so it is dropped.
load_drops : (load 35 3 three_ids).0 ≡ 4 ∷ 6 ∷ []
unfolding load load_ids Ring.init Ring.push Ring.pop Ring.size AckQueue.pop AckQueue.size
load_drops = refl
