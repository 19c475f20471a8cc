-- ===== src/Vpn/Addresses.antt =====
-- `get_useable_ip` of src/SharpVpn.cpp. `htonl` is the C library's: a parameter, of which the code
-- relies on that distinct addresses stay distinct.
use sharpvpn.Base.{
  ℕ, zero, suc, ◌+◌, ◌%◌, ◌^◌, ◌≤◌, ◌<◌, ◌≡◌, ◌≢◌, inl, inr, refl, sym, ◌∙◌, ap, Option-cases, List,
  [], ◌∷◌, if◌then◌else◌, ◌==◌, true, none, is_some, arith, elem, length,
}
use native.Mathlib.Nat.{mod-eq_of_lt}
use native.Mathlib.Decide.{dec_lt}
use sharpvpn.Vpn.Maps.{Map, lookup, keys, elem-keys}

module _ (htonl : ℕ → ℕ) (local_tunnel_ip : ℕ) where
  -- The address of the host `i` after the tunnel's own; `uint32_t` arithmetic.
  abbrev pub proposed : ℕ → ℕ
  proposed i = htonl ((local_tunnel_ip + i) % 2 ^ 32)

  -- The loop, with `count` rounds to go from `i` on.
  unfoldable pub search : {V : Type 0} → Map V → ℕ → ℕ → ℕ
  search ip_map zero i = 0
  search ip_map (suc count) i =
      let rest = search ip_map count (i + 1) in
      if is_some (lookup ip_map (proposed i)) then rest else proposed i

  unfoldable pub get_useable_ip : {V : Type 0} → Map V → ℕ
  get_useable_ip ip_map = search ip_map 199 1

-- A list without the first `x` in it.
unfoldable remove : ℕ → List ℕ → List ℕ
remove x [] = []
remove x (y ∷ ys) = let rest = remove x ys in if y == x then ys else y ∷ rest

length-remove : (x : ℕ) (xs : List ℕ) → elem x xs ≡ true → length (remove x xs) + 1 ≡ length xs
unfolding remove
length-remove x [] h = ground (arith, h)
length-remove x (y ∷ ys) h = ground (arith, h, length-remove x ys)

elem-remove : (x i : ℕ) (xs : List ℕ) → i ≢ x → elem i (remove x xs) ≡ elem i xs
unfolding remove
elem-remove x i [] h = refl
elem-remove x i (y ∷ ys) h = ground (arith, h, elem-remove x i ys)

-- Distinct values that all stand in a list are no more than its entries.
pigeonhole :
    (f : ℕ → ℕ) (n i : ℕ) (xs : List ℕ)
    → ((a b : ℕ) → i ≤ a → a < b → b < i + n → f a ≢ f b)
    → ((a : ℕ) → i ≤ a → a < i + n → elem (f a) xs ≡ true)
    → n ≤ length xs
pigeonhole f zero i xs d h = omega arith
pigeonhole f (suc n) i xs d h =
    let here = h i (omega arith) (omega arith) in
    let rest =
      pigeonhole f n (i + 1) (remove (f i) xs)
        (λ a b lo ab hi. d a b (omega (arith, lo)) ab (omega (arith, hi)))
        (λ a lo hi.
          elem-remove (f i) (f a) xs
            (λ e. d i a (omega arith) (omega (arith, lo)) (omega (arith, hi)) (sym e))
          ∙ h a (omega (arith, lo)) (omega (arith, hi))) in
    omega (arith, rest, length-remove (f i) xs here)

module _ (htonl : ℕ → ℕ) (local_tunnel_ip : ℕ) {V : Type 0} (ip_map : Map V) where
  -- The address is that of the first free host, or 0 where none of them is free.
  data Search (count i : ℕ) : ℕ → Type 0 where
    free :
        (j : ℕ)
        → i ≤ j
        → j < i + count
        → lookup ip_map (proposed htonl local_tunnel_ip j) ≡ none
        → Search count i (proposed htonl local_tunnel_ip j)
    used :
        ((j : ℕ)
          → i ≤ j
          → j < i + count
          → is_some (lookup ip_map (proposed htonl local_tunnel_ip j)) ≡ true)
        → Search count i 0

  further :
      (count i ip : ℕ)
      → is_some (lookup ip_map (proposed htonl local_tunnel_ip i)) ≡ true
      → Search count (i + 1) ip
      → Search (suc count) i ip
  further count i _ e (free j lo hi n) = free j (omega (arith, lo)) (omega (arith, hi)) n
  further count i _ e (used f) = used (λ j lo hi. elim (dec_lt i j) [
    | yes p ↦ f j (omega (arith, p)) (omega (arith, hi))
    | no p ↦ rw (same i j lo p) at e
  ])
    where
      same : (i j : ℕ) → i ≤ j → ¬ (i < j) → i ≡ j
      same i j h k = omega (arith, h, k)

  search-Search : (count i : ℕ) → Search count i (search htonl local_tunnel_ip ip_map count i)
  unfolding search
  search-Search zero i = used (λ j lo hi. absurd (omega (arith, lo, hi)))
  search-Search (suc count) i =
      elim (Option-cases (lookup ip_map (proposed htonl local_tunnel_ip i))) [
        | inl e ↦ rw e (free i (omega arith) (omega arith) e)
        | inr (x, e) ↦ rw e (further count i _ (ap is_some e) (search-Search count (i + 1)))
      ]

  length-keys : (m : Map V) → length (keys m) ≡ length m
  length-keys [] = refl
  length-keys ((key, v) ∷ m) = ap suc (length-keys m)

  -- While fewer than 199 addresses are in use, the address is one that is not, and that of one of
  -- the 199 hosts after the tunnel's own, if `htonl` keeps addresses apart and none of them wraps.
  pub get_useable_ip_lem :
      ((a b : ℕ) → a < b → b < 2 ^ 32 → htonl a ≢ htonl b)
      → local_tunnel_ip + 200 < 2 ^ 32
      → length ip_map < 199
      → (j : ℕ) × (1 ≤ j)
        × (j < 200)
        × (get_useable_ip htonl local_tunnel_ip ip_map ≡ htonl (local_tunnel_ip + j))
        × (lookup ip_map (htonl (local_tunnel_ip + j)) ≡ none)
  unfolding get_useable_ip
  get_useable_ip_lem inj b l = go (search htonl local_tunnel_ip ip_map 199 1) (search-Search 199 1)
    where
      no_wrap : (j : ℕ) → j < 200 → (local_tunnel_ip + j) % 2 ^ 32 ≡ local_tunnel_ip + j
      no_wrap j h = mod-eq_of_lt (omega (arith, b, h))

      go :
          (ip : ℕ)
          → Search 199 1 ip
          → (j : ℕ) × (1 ≤ j)
            × (j < 200)
            × (ip ≡ htonl (local_tunnel_ip + j))
            × (lookup ip_map (htonl (local_tunnel_ip + j)) ≡ none)
      go _ (free j lo hi n) = (
        j,
        lo,
        omega (arith, hi),
        ap htonl (no_wrap j (omega (arith, hi))),
        rw (no_wrap j (omega (arith, hi))) at n,
      )
      go _ (used f) =
          let all =
            pigeonhole (λ j. htonl (local_tunnel_ip + j)) 199 1 (keys ip_map)
              (λ a c lo ac hi.
                inj (local_tunnel_ip + a) (local_tunnel_ip + c) (omega (arith, ac))
                  (omega (arith, hi, b)))
              (λ a lo hi.
                elem-keys ip_map (htonl (local_tunnel_ip + a))
                ∙ rw (no_wrap a (omega (arith, hi))) at (f a lo hi)) in
          absurd (omega (arith, all, l, length-keys ip_map))
