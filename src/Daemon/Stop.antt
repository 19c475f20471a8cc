-- ===== src/Daemon/Stop.antt =====
-- `DaemonRuntime::stop`: the process of the pid file is signalled, and watched for ten seconds.
use sharpvpn.Base.{
  ℕ, zero, suc, ◌+◌, ◌≤◌, ◌<◌, ◌≡◌, ◌≢◌, ap, ℤ, pos, is_pos, Bool, true, false, Option, none, some,
  if◌then◌else◌, arith, ◌⊎◌, inl, inr,
}
use native.Mathlib.Decide.{dec_lt}

-- How `kill` answers: it does so, or fails with ESRCH or with another errno.
pub data Killed : Type 0 where
  done no_process failed : Killed

-- The process table and the pid file: what the file reads, where it opens, and how each `kill` of
-- the pid answers, first that of SIGTERM, then the polls, one after the other.
pub record World : Type 0 where
  pub opens : Bool
  pub reads : Option ℤ
  pub terminate : Killed
  pub polled : ℕ → Killed
  pub unlinks : Bool

-- Whether `stop` returns 0, how often it polled, and whether it removed the pid file.
pub record Stopped : Type 0 where
  pub ok : Bool
  pub polls : ℕ
  pub removed : Bool

-- The loop, with `count` rounds to go from `i` on: whether the process was seen to be gone, and the
-- polls that were made.
unfoldable pub watch : (ℕ → Killed) → ℕ → ℕ → Bool × ℕ
watch polled zero i = (false, i)
watch polled (suc count) i =
    let later = watch polled count (i + 1) in
    elim (polled i) [ no_process ↦ (true, i + 1) | done ↦ later | failed ↦ later ]

abbrev pub max_polls : ℕ
max_polls = 200

-- What follows a SIGTERM that was delivered.
abbrev pub wait_for : World → Stopped
wait_for w =
    let (gone, polls) = watch w.polled max_polls 0 in
    if gone
    then record { ok = w.unlinks; polls = polls; removed = w.unlinks }
    else record { ok = false; polls = polls; removed = false }

abbrev pub without_polls : Bool → Stopped
without_polls ok = record { ok = ok; polls = 0; removed = false }

abbrev pub stop_pid : World → ℤ → Stopped
stop_pid w pid =
    if is_pos pid
    then elim w.terminate [
      | done ↦ wait_for w
      | no_process ↦ without_polls true
      | failed ↦ without_polls false
    ]
    else without_polls false

unfoldable pub stop : World → Stopped
stop w =
    if w.opens
    then elim w.reads [ none ↦ without_polls false | some pid ↦ stop_pid w pid ]
    else without_polls false

-- The first poll from `i` on that finds no process.
abbrev pub Gone : (ℕ → Killed) → ℕ → ℕ → Type 0
Gone polled i n = (polled n ≡ no_process) × ((j : ℕ) → i ≤ j → j < n → polled j ≢ no_process)

-- No poll of `count` from `i` on finds the process gone.
abbrev pub Stays : (ℕ → Killed) → ℕ → ℕ → Type 0
Stays polled count i = (j : ℕ) → i ≤ j → j < i + count → polled j ≢ no_process

is_gone : (k : Killed) → (k ≡ no_process) ⊎ (k ≢ no_process)
is_gone k = ground arith

watch-Gone :
    (polled : ℕ → Killed) (count i n : ℕ)
    → i ≤ n
    → n < i + count
    → Gone polled i n
    → watch polled count i ≡ (true, n + 1)
unfolding watch
watch-Gone polled zero i n lo hi g = absurd (omega (arith, lo, hi))
watch-Gone polled (suc count) i n lo hi g = elim (dec_lt i n) [
  | yes p ↦ ground (
    arith,
    g.1 i (omega arith) p,
    watch-Gone polled count (i + 1) n (omega (arith, p)) (omega (arith, hi))
        (g.0, λ j l h. g.1 j (omega (arith, l)) h),
  )
  | no p ↦ ground (arith, g.0, same i n lo p)
]
  where
    same : (i n : ℕ) → i ≤ n → ¬ (i < n) → n ≡ i
    same i n h k = omega (arith, h, k)

watch-Stays :
    (polled : ℕ → Killed) (count i : ℕ)
    → Stays polled count i
    → watch polled count i ≡ (false, i + count)
unfolding watch
watch-Stays polled zero i h = ap (λ n. (false, n)) (omega arith)
watch-Stays polled (suc count) i h = ground (
  arith,
  h i (omega arith) (omega arith),
  watch-Stays polled count (i + 1) (λ j l k. h j (omega (arith, l)) (omega (arith, k))),
)

-- Either some poll finds it gone, and then there is a first one, or none does.
Gone-Stays :
    (polled : ℕ → Killed) (count i : ℕ)
    → ((n : ℕ) × (i ≤ n) × (n < i + count) × Gone polled i n) ⊎ Stays polled count i
Gone-Stays polled zero i = inr (λ j l h. absurd (omega (arith, l, h)))
Gone-Stays polled (suc count) i = elim (is_gone (polled i)) [
  | inl e ↦ inl (i, omega arith, omega arith, (e, λ j l h. absurd (omega (arith, l, h))))
  | inr e ↦ elim (Gone-Stays polled count (i + 1)) [
    | inl (n, lo, hi, g) ↦
        inl
          (n, omega (arith, lo), omega (arith, hi), (g.0, λ j l h. later e j l h (λ l'. g.1 j l')))
    | inr s ↦ inr (λ j l h. later e j l h (λ l' h'. s j l' (omega (arith, h))))
  ]
]
  where
    same : (i j : ℕ) → i ≤ j → ¬ (i < j) → i ≡ j
    same i j h k = omega (arith, h, k)

    later :
        {n : ℕ}
        → polled i ≢ no_process
        → (j : ℕ) → i ≤ j
        → j < n
        → (i + 1 ≤ j → j < n → polled j ≢ no_process)
        → polled j ≢ no_process
    later e j l h f q = elim (dec_lt i j) [
      | yes p ↦ f (omega (arith, p)) h q
      | no p ↦ e (rw (same i j l p) q)
    ]

-- Where the pid file holds the number of a process that takes the signal, `stop` returns 0 and
-- removes the file exactly if one of the first 200 polls finds the process gone, and the file can be
-- removed; it polls until then, and no more than 200 times.
pub stop_lem :
    (w : World) (pid : ℕ)
    → w.opens ≡ true
    → w.reads ≡ some (pos (suc pid))
    → w.terminate ≡ done
    → ((n : ℕ) × (n < max_polls)
        × Gone w.polled 0 n
        × (stop w ≡ record { ok = w.unlinks; polls = n + 1; removed = w.unlinks }))
      ⊎ (Stays w.polled max_polls 0
          × (stop w ≡ record { ok = false; polls = max_polls; removed = false }))
unfolding stop
stop_lem w pid o r t = elim (Gone-Stays w.polled max_polls 0) [
  | inl (n, lo, hi, g) ↦
      inl (
        n,
        omega (arith, hi),
        g,
        ground (arith, o, r, t, watch-Gone w.polled max_polls 0 n lo hi g),
      )
  | inr s ↦ inr (s, ground (arith, o, r, t, watch-Stays w.polled max_polls 0 s))
]
