-- ===== src/NetStruct/PackageQueueMap/Tests.antt =====
-- The queue of packages at concrete inputs.
use sharpvpn.Base.{ℕ, ◌≡◌, refl, ◌∷◌, none, some, arith}
use sharpvpn.NetStruct.PackageQueueMap.{PackageQueueMap, init, at, push, resend, pop, erase}
use sharpvpn.NetStruct.PackageQueueMap.Queues.{IsValid, pop-Pops, push-pending, Pops}
use sharpvpn.NetStruct.PackageQueueMap.References.{
  erase_times, resend_times, erase_times-resend_times,
}

abbrev two_packages : PackageQueueMap ℕ
two_packages = push (push (init 4) 10 1) 20 2

-- An id to send again goes first.
pop-resend_first : (pop (resend two_packages 2)).0 ≡ some 20
unfolding init push resend pop at
pop-resend_first = refl

new_map-IsValid : IsValid (init {A = ℕ} 4)
unfolding init
new_map-IsValid = record {
  sends_valid = record { start_in = omega arith; len_in = omega arith; end_at = refl };
  resends_valid = record { start_in = omega arith; len_in = omega arith; end_at = refl };
}

two_packages-IsValid : IsValid two_packages
two_packages-IsValid =
    let one = push-pending (init 4) 10 1 new_map-IsValid (unfold init in omega arith) in
    (push-pending (push (init 4) 10 1) 20 2 one.0 (unfold init push in omega arith)).0

pop-Pops_example : Pops two_packages (pop two_packages)
pop-Pops_example = pop-Pops two_packages two_packages-IsValid

erase_times-resend_times_example :
    let p = push two_packages 30 3 in
    let r = resend_times 2 p 3 in
    (at (erase_times 1 r 3) 3 ≡ some 30)
    × ((erase_times 1 r 3).freed ≡ p.freed)
    × (at (erase (erase_times 2 r 3) 3) 3 ≡ none)
    × ((erase (erase_times 2 r 3) 3).freed ≡ 30 ∷ p.freed)
erase_times-resend_times_example =
    erase_times-resend_times 2 1 two_packages 30 3 (λ e. omega (arith, e)) (omega arith)
