-- ===== src/Socket/Receiver/Order/Steps.antt =====
-- What each step of the receiver does to the order of delivery.
use sharpvpn.Base.{
  ℕ, ◌+◌, ◌^◌, ◌≤◌, ◌<◌, ◌≡◌, ◌≢◌, ap, ◌∙◌, List, [], ◌∷◌, ◌++◌, true, false, Option, some, arith,
  is_some, elem, All, max, advance_enough, advance_found,
}
use native.Mathlib.Nat.{mod-eq_of_lt}
use sharpvpn.NetStruct.PackageMap
use sharpvpn.NetStruct.PackageMap.{PackageMap}
use sharpvpn.NetStruct.PackageMap.Laws.{find-set, find-erase, capacity-set, arr_id_of_find}
use sharpvpn.Package.{DataPackage, AckPackage}
use sharpvpn.Socket.Receiver.{
  handle_data, handle_ack, store_data, raise_recv_ack_id, raise_send_ack_id, fast_resend,
  after_take, through_int, Taken, has_arrived,
}
use sharpvpn.Socket.Receiver.Arrivals.Steps.{Covers, data-Covers, ack-Covers, handle_ack_frame}
use sharpvpn.Socket.Receiver.Delivery.{
  Outcome, unfinished, passed, shut, got, ids_taken, Takes, Passes,
}
use sharpvpn.Socket.State.{Socket}
use sharpvpn.Socket.Receiver.Order.{Ascending}

-- Each package stands under its own id.
abbrev Named : PackageMap DataPackage → Type 0
Named m = (k : ℕ) (d : DataPackage) → k ≢ 0 → PackageMap.find m k ≡ some d → d.package_id ≡ k

erase-Named : (m : PackageMap DataPackage) (i : ℕ) → Named m → Named (PackageMap.erase m i)
erase-Named m i n k d nz e = n k d nz (ground (arith, find-erase m i k nz, e))

store-Named : (s : Socket) (d : DataPackage) → Named s.recv_pool → Named (store_data s d).recv_pool
unfolding store_data
store-Named s d n k x nz e = ground (arith, find-set s.recv_pool d.package_id k d, n k x nz, e)

-- What holds of a socket of which the packages from `recv_id` on were not handed on yet.
pub record Reads (bound : ℕ) (ids : List ℕ) (from : ℕ) (s : Socket) : Type 0 where
  pub covers : Covers bound ids from s
  pub named : Named s.recv_pool
  pub first : 0 < s.recv_id
  pub last : s.recv_id ≤ bound + 1

pub data-Reads :
    (bound : ℕ) (ids : List ℕ) (from : ℕ) (s : Socket) (d : DataPackage)
    → d.package_id ≤ bound
    → Reads bound ids from s
    → Reads bound (d.package_id ∷ ids) from (handle_data s d)
data-Reads bound ids from s d h r = record {
  covers = data-Covers bound ids from s d h r.covers;
  named = unfold handle_data raise_send_ack_id raise_recv_ack_id in store-Named s d r.named;
  first =
      unfold handle_data raise_send_ack_id raise_recv_ack_id store_data in ground (arith, r.first);
  last =
      unfold handle_data raise_send_ack_id raise_recv_ack_id store_data in ground (arith, r.last);
}

pub recv_id-handle_ack : (s : Socket) (a : AckPackage) → (handle_ack s a).recv_id ≡ s.recv_id
unfolding handle_ack raise_send_ack_id fast_resend
recv_id-handle_ack s a = ground arith

pub ack-Reads :
    (bound : ℕ) (ids : List ℕ) (from : ℕ) (s : Socket) (a : AckPackage)
    → a.send_from ≤ bound
    → Reads bound ids from s
    → Reads bound ids (max a.send_from from) (handle_ack s a)
ack-Reads bound ids from s a h r = record {
  covers = ack-Covers bound ids from s a h r.covers;
  named = rw ((handle_ack_frame s a).0) r.named;
  first = rw (recv_id-handle_ack s a) r.first;
  last = rw (recv_id-handle_ack s a) r.last;
}

-- What a call does to a socket: what it hands on, then the rest of the history from `s'` on.
pub record Step (bound : ℕ) (ids : List ℕ) (from lo : ℕ) (xs : List ℕ) (t : Socket) : Type 0 where
  pub reads : Reads bound ids from t
  pub onward : lo ≤ t.recv_id
  pub ascending : (ys : List ℕ) → Ascending t.recv_id ys → Ascending lo (xs ++ ys)
  pub there : All (λ k. elem k ids ≡ true) xs

pub Ascending-weaken : (lo lo' : ℕ) (xs : List ℕ) → lo ≤ lo' → Ascending lo' xs → Ascending lo xs
Ascending-weaken lo lo' [] h a = tt
Ascending-weaken lo lo' (x ∷ xs) h a = (omega (arith, a.0), a.1)

Passes-Step :
    (bound : ℕ) (ids : List ℕ) (from : ℕ) (s t : Socket)
    → Reads bound ids from s
    → Covers bound ids from t
    → Passes s t
    → Step bound ids from s.recv_id [] t
Passes-Step bound ids from s t r c p = record {
  reads = record {
    covers = c;
    named = rw (p.pool) r.named;
    first = omega (arith, r.first, p.from);
    last = omega (arith, p.upto, r.last, r.covers.below);
  };
  onward = p.from;
  ascending = λ ys a. Ascending-weaken s.recv_id t.recv_id ys p.from a;
  there = tt;
}

Takes-Step :
    (bound : ℕ) (ids : List ℕ) (from : ℕ) (s t : Socket) (d : DataPackage) (id : ℕ)
    → Reads bound ids from s
    → Covers bound ids from t
    → Takes s d t id
    → Step bound ids from s.recv_id (d.package_id ∷ []) t
Takes-Step bound ids from s t d id r c k =
    let nz : id ≢ 0 = λ e. omega (arith, e, k.from, r.first) in
    let own : d.package_id ≡ id = r.named id d nz k.there in
    let stored = r.covers.stored id nz (ap is_some k.there) in
    let next : t.recv_id ≡ id + 1 =
      k.next ∙ mod-eq_of_lt (omega (arith, stored.1, r.covers.room)) in
    record {
      reads = record {
        covers = c;
        named = rw (k.erased) (erase-Named s.recv_pool (through_int id) r.named);
        first = omega (arith, next);
        last = omega (arith, next, stored.1);
      };
      onward = omega (arith, next, k.from);
      ascending = λ ys a. (
        omega (arith, own, k.from),
        Ascending-weaken (d.package_id + 1) t.recv_id ys (omega (arith, own, next)) a,
      );
      there = (rw own (stored.0), tt);
    }

pub Outcome-Step :
    (bound : ℕ) (ids : List ℕ) (from : ℕ) (s : Socket) (r : Option Taken)
    → Reads bound ids from s
    → Covers bound ids from (after_take s r)
    → Outcome s r
    → Step bound ids from s.recv_id (ids_taken r) (after_take s r)
unfolding ids_taken
Outcome-Step bound ids from s r v c unfinished = record {
  reads = v;
  onward = omega arith;
  ascending = λ ys a. a;
  there = tt;
}
Outcome-Step bound ids from s r v c (passed {t} p) = Passes-Step bound ids from s t v c p
Outcome-Step bound ids from s r v c (shut {t} p) = Passes-Step bound ids from s t v c p
Outcome-Step bound ids from s r v c (got {d} {t} id k) = Takes-Step bound ids from s t d id v c k

-- Where the table has slots and ids stay below 2 ^ 64 by more than their number: each id that a
-- `Data` package makes `recv_ack_id` pass is in the table, and the id behind the last is not.
pub handle_data_lem :
    (s : Socket) (d : DataPackage) (k : ℕ)
    → 0 < s.recv_pool.capacity
    → s.recv_ack_id + s.recv_pool.capacity + 1 < 2 ^ 64
    → s.recv_ack_id < k
    → k ≤ (handle_data s d).recv_ack_id
    → let t = handle_data s d in
      (has_arrived t k ≡ true) × (has_arrived t (t.recv_ack_id + 1) ≡ false)
unfolding handle_data raise_send_ack_id raise_recv_ack_id
handle_data_lem s d k p h lo hi =
    let stored = store_data s d in
    let same = store-frame s d in
    (
      advance_found (has_arrived stored) stored.recv_pool.capacity stored.recv_ack_id k
          (omega (arith, same.0, same.1)) (omega (arith, same.1)) hi,
      advance_enough (has_arrived stored) stored.recv_pool.arr_id stored.recv_pool.capacity
          stored.recv_ack_id (omega (arith, same.0)) (omega (arith, same.0, same.1))
          (λ i e. arr_id_of_find stored.recv_pool i e),
    )
  where
    store-frame :
        (s : Socket) (d : DataPackage)
        → ((store_data s d).recv_pool.capacity ≡ s.recv_pool.capacity)
          × ((store_data s d).recv_ack_id ≡ s.recv_ack_id)
    store-frame s d = unfold store_data in ground (arith, capacity-set s.recv_pool d.package_id d)
