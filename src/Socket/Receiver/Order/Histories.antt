-- ===== src/Socket/Receiver/Order/Histories.antt =====
-- The order of delivery in a history of the receiver.
use sharpvpn.Base.{
  ℕ, ◌+◌, ◌^◌, ◌<◌, ◌≡◌, refl, sym, ◌∙◌, List, [], ◌∷◌, ◌++◌, Bool, true, arith, elem, elem-append,
  All, All-mono, max,
}
use mathlib.Core.List.{append-nil}
use sharpvpn.Crypto.{SharpCrypto}
use sharpvpn.NetStruct.PackageMap.Laws.{find-init}
use sharpvpn.Package.{DataPackage}
use sharpvpn.Socket.Receiver.{
  Event, data_arrives, ack_arrives, package_taken, handle_data, handle_ack, store_data,
  raise_recv_ack_id, raise_send_ack_id, take_package, after_take,
}
use sharpvpn.Socket.Receiver.Arrivals.Steps.{take-Covers}
use sharpvpn.Socket.Receiver.Arrivals.Covered.{Bounded, init-Covers}
use sharpvpn.Socket.Receiver.Arrivals.{arrived}
use sharpvpn.Socket.Receiver.Delivery.{take-Outcome, ids_taken}
use sharpvpn.Socket.State.{Socket, Memory, init}
use sharpvpn.Socket.Receiver.Order.{delivered, Ascending}
use sharpvpn.Socket.Receiver.Order.Steps.{
  Reads, data-Reads, recv_id-handle_ack, ack-Reads, Ascending-weaken, Outcome-Step,
}

All-append : (P : ℕ → Type 0) (xs ys : List ℕ) → All P xs → All P ys → All P (xs ++ ys)
All-append P [] ys h k = k
All-append P (x ∷ xs) ys h k = (h.0, All-append P xs ys h.1 k)

recv_id-handle_data : (s : Socket) (d : DataPackage) → (handle_data s d).recv_id ≡ s.recv_id
unfolding handle_data raise_send_ack_id raise_recv_ack_id store_data
recv_id-handle_data s d = ground arith

-- What is handed on, by a socket on which the packages `ids` arrived before.
record Delivers (ids : List ℕ) (s : Socket) (events : List Event) : Type 0 where
  pub ascending : (lo : ℕ) → lo ≡ s.recv_id → Ascending lo (delivered s events)
  pub there : All (λ k. elem k (arrived events ++ ids) ≡ true) (delivered s events)

run-Delivers :
    (bound : ℕ) (events : List Event) (ids : List ℕ) (from : ℕ) (s : Socket)
    → All (Bounded bound) events
    → Reads bound ids from s
    → Delivers ids s events
unfolding delivered arrived
run-Delivers bound [] ids from s b r = record { ascending = λ lo e. tt; there = tt }
run-Delivers bound (data_arrives d ∷ events) ids from s b r =
    let done =
      run-Delivers bound events (d.package_id ∷ ids) from (handle_data s d) b.1
        (data-Reads bound ids from s d b.0 r) in
    record {
      ascending = λ lo e. done.ascending lo (e ∙ sym (recv_id-handle_data s d));
      there =
          All-mono
            (λ k e. ground (
              arith,
              e,
              elem-append k (arrived events) (d.package_id ∷ ids),
              elem-append k (arrived events) ids,
            ))
            (delivered (handle_data s d) events) done.there;
    }
run-Delivers bound (ack_arrives a ∷ events) ids from s b r =
    let done =
      run-Delivers bound events ids (max a.send_from from) (handle_ack s a) b.1
        (ack-Reads bound ids from s a b.0 r) in
    record {
      ascending = λ lo e. done.ascending lo (e ∙ sym (recv_id-handle_ack s a));
      there = done.there;
    }
run-Delivers bound (package_taken fuel ∷ events) ids from s b r =
    let result = take_package fuel s in
    let t = after_take s result in
    let step =
      Outcome-Step bound ids from s result r (take-Covers bound ids from fuel s r.covers)
        (take-Outcome fuel s (omega (arith, r.covers.below, r.covers.room))) in
    let done = run-Delivers bound events ids from t b.1 step.reads in
    record {
      ascending = λ lo e.
          Ascending-weaken lo s.recv_id (ids_taken result ++ delivered t events) (omega (arith, e))
            (step.ascending (delivered t events) (done.ascending t.recv_id refl));
      there =
          All-append _ (ids_taken result) (delivered t events)
            (All-mono (λ k e. ground (arith, e, elem-append k (arrived events) ids))
              (ids_taken result) step.there)
            done.there;
    }

init-Reads :
    (memory : Memory) (crypto : SharpCrypto) (capacity bound : ℕ) (running : Bool)
    → 0 < capacity
    → bound + capacity + 1 < 2 ^ 64
    → Reads bound [] 0 (init memory crypto capacity running)
init-Reads memory crypto capacity bound running h r =
    let covers = init-Covers memory crypto capacity bound running h r in
    unfold init in
    record {
      covers = covers;
      named = λ k d nz e. ground (arith, e, find-init {A = DataPackage} capacity k);
      first = omega arith;
      last = omega arith;
    }

-- Over any history of a new socket, whose ids leave room for the capacity below 2 ^ 64, the
-- packages that `recv_package` hands on have strictly ascending ids from 1 on, so each is handed on
-- at most once, and every one of them arrived in a `Data` package.
pub delivered-Ascending :
    (memory : Memory) (crypto : SharpCrypto) (capacity bound : ℕ) (running : Bool)
    (events : List Event)
    → 0 < capacity
    → bound + capacity + 1 < 2 ^ 64
    → All (Bounded bound) events
    → let s = init memory crypto capacity running in
      Ascending 1 (delivered s events)
      × All (λ k. elem k (arrived events) ≡ true) (delivered s events)
delivered-Ascending memory crypto capacity bound running events h r b =
    let s = init memory crypto capacity running in
    let done =
      run-Delivers bound events [] 0 s b (init-Reads memory crypto capacity bound running h r) in
    (done.ascending 1 (unfold init in refl), rw (append-nil (arrived events)) at done.there)
