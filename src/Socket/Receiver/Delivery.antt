-- ===== src/Socket/Receiver/Delivery.antt =====
-- What `recv_package` hands on: the packages that arrived, by ascending id, each once.
use sharpvpn.Base.{
  ℕ, zero, suc, ◌+◌, ◌^◌, ◌≤◌, ◌<◌, ◌≡◌, refl, ◌∙◌, true, List, [], ◌∷◌, Option, none, some, arith,
  max,
}
use native.Mathlib.Decide.{dec_lt}
use native.Mathlib.Nat.{mod-eq_of_lt}
use sharpvpn.NetStruct.PackageMap
use sharpvpn.Package.{DataPackage}
use sharpvpn.Socket.State.{Socket, add64}
use sharpvpn.Socket.Receiver.{take_package, through_int, Taken, taken, waits, closed}
use sharpvpn.Socket.Receiver.Take.{
  Round-of, found, closing, passing, waiting, take-found, take-closed, take-passes, take-waits,
  once_passed, once_taken,
}

-- The id of the package that a call hands on.
unfoldable pub ids_taken : Option Taken → List ℕ
ids_taken none = []
ids_taken (some (waits s)) = []
ids_taken (some (closed s)) = []
ids_taken (some (taken d s)) = d.package_id ∷ []

le_antisymm' : (a b : ℕ) → a ≤ b → b ≤ a → a ≡ b
le_antisymm' a b h k = omega arith

-- What is taken is the package of the first id from `recv_id` on that has arrived, among those up
-- to `recv_ack_id`; `recv_id` goes behind it.
pub record Takes (s : Socket) (d : DataPackage) (t : Socket) (id : ℕ) : Type 0 where
  pub from : s.recv_id ≤ id
  pub there : PackageMap.find s.recv_pool id ≡ some d
  pub next : t.recv_id ≡ add64 id 1
  pub gaps : (k : ℕ) → s.recv_id ≤ k → k < id → PackageMap.find s.recv_pool k ≡ none
  pub erased : t.recv_pool ≡ PackageMap.erase s.recv_pool (through_int id)

-- Where nothing is taken `recv_id` may have passed ids over, up to `recv_ack_id`, and the packages
-- are as they were.
pub record Passes (s t : Socket) : Type 0 where
  pub from : s.recv_id ≤ t.recv_id
  pub upto : t.recv_id ≤ max s.recv_id s.recv_ack_id
  pub pool : t.recv_pool ≡ s.recv_pool

-- What a call can return.
pub data Outcome (s : Socket) : Option Taken → Type 0 where
  unfinished : Outcome s none
  passed : {t : Socket} → Passes s t → Outcome s (some (waits t))
  shut : {t : Socket} → Passes s t → Outcome s (some (closed t))
  got : {d : DataPackage} {t : Socket} (id : ℕ) → Takes s d t id → Outcome s (some (taken d t))

-- A round that passes an id over, then what follows.
further :
    (s t : Socket)
    → s.recv_id < s.recv_ack_id
    → t.recv_id ≡ s.recv_id + 1
    → t.recv_ack_id ≡ s.recv_ack_id
    → t.recv_pool ≡ s.recv_pool
    → PackageMap.find s.recv_pool s.recv_id ≡ none
    → {r : Option Taken} → Outcome t r
    → Outcome s r
further s t l i a p e unfinished = unfinished
further s t l i a p e (passed f) = passed (record {
  from = omega (arith, i, f.from);
  upto = omega (arith, i, a, f.upto);
  pool = f.pool ∙ p;
})
further s t l i a p e (shut f) = shut (record {
  from = omega (arith, i, f.from);
  upto = omega (arith, i, a, f.upto);
  pool = f.pool ∙ p;
})
further s t l i a p e (got id f) = got id (record {
  from = omega (arith, i, f.from);
  there = rw p at f.there;
  next = f.next;
  gaps = λ k lo hi. elim (dec_lt s.recv_id k) [
    | yes q ↦ rw p at (f.gaps k (omega (arith, i, q)) hi)
    | no q ↦ rw (le_antisymm' k s.recv_id (omega (arith, q)) lo) e
  ];
  erased = rw p at f.erased;
})

stays : (s : Socket) → Passes s s
stays s = record { from = omega arith; upto = omega arith; pool = refl }

-- While `recv_ack_id` stays below 2 ^ 64 - 1: the package taken is that of the first id from
-- `recv_id` on that has arrived, `recv_id` goes behind it, and all ids before it were not there;
-- where none is taken, only ids up to `recv_ack_id` were passed over, and the packages are as they
-- were.
pub take-Outcome :
    (fuel : ℕ) (s : Socket) → s.recv_ack_id + 1 < 2 ^ 64 → Outcome s (take_package fuel s)
take-Outcome zero s b = unfold take_package in unfinished
take-Outcome (suc fuel) s b = elim (Round-of s) [
  | found d e ↦ rw (take-found fuel s d e) (
      got s.recv_id (record {
        from = omega arith;
        there = e;
        next = refl;
        gaps = λ k lo hi. absurd (omega (arith, lo, hi));
        erased = refl;
      }))
  | closing e w ↦ rw (take-closed fuel s e w) (shut (stays s))
  | waiting e w l ↦ rw (take-waits fuel s e w l) (passed (stays s))
  | passing e w l ↦
      let step : add64 s.recv_id 1 ≡ s.recv_id + 1 = mod-eq_of_lt (omega (arith, l, b)) in
      rw (take-passes fuel s e w l) (
        further s (once_passed fuel s) l step refl refl e
          (take-Outcome fuel (once_passed fuel s) b))
]

behind_found :
    (s : Socket) (id : ℕ) (d : DataPackage)
    → s.recv_id ≤ id
    → PackageMap.find s.recv_pool id ≡ some d
    → PackageMap.find s.recv_pool s.recv_id ≡ none
    → s.recv_id < id
behind_found s id d lo there q = elim (dec_lt s.recv_id id) [
  | yes h ↦ h
  | no h ↦
      let same : id ≡ s.recv_id = le_antisymm' id s.recv_id (omega (arith, h)) lo in
      absurd (ground (arith, q, rw same at there))
]

-- Where a package has arrived, among those that `recv_package` can reach, one is taken.
some_taken :
    (fuel : ℕ) (s : Socket) (id : ℕ) (d : DataPackage)
    → s.worker_running ≡ true
    → s.recv_id ≤ id
    → id ≤ max s.recv_id s.recv_ack_id
    → PackageMap.find s.recv_pool id ≡ some d
    → id < s.recv_id + fuel
    → s.recv_ack_id + 1 < 2 ^ 64
    → (e : DataPackage) × (t : Socket) × (take_package fuel s ≡ some (taken e t))
some_taken zero s id d w lo hi there f b = absurd (omega (arith, lo, f))
some_taken (suc fuel) s id d w lo hi there f b = elim (Round-of s) [
  | found e q ↦ (e, once_taken fuel s, take-found fuel s e q)
  | closing q w' ↦ absurd (ground (arith, w, w'))
  | waiting q w' l ↦ absurd (omega (arith, behind_found s id d lo there q, hi, l))
  | passing q w' l ↦
      let step : add64 s.recv_id 1 ≡ s.recv_id + 1 = mod-eq_of_lt (omega (arith, l, b)) in
      let ahead : s.recv_id < id = behind_found s id d lo there q in
      rw (take-passes fuel s q w' l) (
        some_taken fuel (once_passed fuel s) id d w (omega (arith, step, ahead))
          (omega (arith, step, hi, l)) there (omega (arith, step, f)) b)
]

taken-Takes :
    (s : Socket) (e : DataPackage) (t : Socket)
    → Outcome s (some (taken e t))
    → (id : ℕ) × Takes s e t id
taken-Takes s e t (got id f) = (id, f)

-- While the threads run and `recv_ack_id` stays below 2 ^ 64 - 1: where the package of an id from
-- `recv_id` on has arrived, which is `recv_id` itself or not above `recv_ack_id`, as many rounds as
-- the id is ahead of `recv_id`, and one more, are enough for the loop to end without a wait, with
-- the package of the first id from `recv_id` on that has arrived; `recv_id` goes behind it.
pub take_package_ends :
    (fuel : ℕ) (s : Socket) (id : ℕ) (d : DataPackage)
    → s.worker_running ≡ true
    → s.recv_id ≤ id
    → id ≤ max s.recv_id s.recv_ack_id
    → PackageMap.find s.recv_pool id ≡ some d
    → id < s.recv_id + fuel
    → s.recv_ack_id + 1 < 2 ^ 64
    → (e : DataPackage) × (t : Socket) × (first : ℕ) × (take_package fuel s ≡ some (taken e t))
      × (first ≤ id)
      × Takes s e t first
take_package_ends fuel s id d w lo hi there f b =
    let (e, t, q) = some_taken fuel s id d w lo hi there f b in
    let (first, takes) = taken-Takes s e t (rw q at (take-Outcome fuel s b)) in
    (
      e,
      t,
      first,
      q,
      elim (dec_lt id first) [
        | yes l ↦ absurd (ground (arith, there, takes.gaps id lo l))
        | no l ↦ omega (arith, l)
      ],
      takes,
    )
