-- ===== src/Vpn/Server/Dropping.antt =====
-- The loop over the users that have gone, in `func_socket` of src/SharpVpn.cpp.
use sharpvpn.Base.{
  ℕ, ◌≡◌, refl, ◌∙◌, [], ◌∷◌, Bool, true, false, none, some, ◌==◌, if◌then◌else◌, arith, elem,
  Bool-cases, Option-cases, inl, inr,
}
use sharpvpn.Vpn.Maps.{Map, lookup, erase, assign, lookup-erase, lookup-assign}
use sharpvpn.Vpn.Server.{drop_dead, ips, Served}

Served-erase :
    (users m : Map ℕ) (ip : ℕ)
    → elem ip (ips users) ≡ false
    → Served users m
    → Served users (erase m ip)
Served-erase [] m ip h s = tt
Served-erase ((token, i) ∷ users) m ip h s = (
  ground (arith, h, s.0, lookup-erase m ip i),
  s.1,
  Served-erase users m ip (ground (arith, h)) s.2,
)

pub Served-assign :
    (users m : Map ℕ) (ip socket : ℕ) → Served users m → Served users (assign m ip socket)
Served-assign [] m ip socket s = tt
Served-assign ((token, i) ∷ users) m ip socket s =
    (ground (arith, s.0, lookup-assign m ip i socket), s.1, Served-assign users m ip socket s.2)

-- Whether the socket of an address is alive.
abbrev pub lives : (ℕ → Bool) → Map ℕ → ℕ → Bool
lives alive m ip = elim (lookup m ip) [ none ↦ false | some socket ↦ alive socket ]

-- The users whose address has a socket that is alive.
abbrev pub living : (ℕ → Bool) → Map ℕ → Map ℕ → Map ℕ
living alive m [] = []
living alive m ((token, ip) ∷ users) =
    let rest = living alive m users in if lives alive m ip then (token, ip) ∷ rest else rest

-- What is left once the dead are dropped: the users whose socket is alive; their addresses and those
-- that no user has are as they were, and the address of a user whose socket is dead is gone.
pub record Dropped (alive : ℕ → Bool) (users m : Map ℕ) (r : Map ℕ × Map ℕ) : Type 0 where
  pub served : Served r.0 r.1
  pub left : r.0 ≡ living alive m users
  pub same : (ip : ℕ) → lives alive m ip ≡ true → lookup r.1 ip ≡ lookup m ip
  pub gone : (ip : ℕ) → elem ip (ips users) ≡ true → lives alive m ip ≡ false → lookup r.1 ip ≡ none
  pub fewer : (ip : ℕ) → elem ip (ips users) ≡ false → elem ip (ips r.0) ≡ false
  pub others : (ip : ℕ) → elem ip (ips users) ≡ false → lookup r.1 ip ≡ lookup m ip

living-erase :
    (alive : ℕ → Bool) (users m : Map ℕ) (ip : ℕ)
    → elem ip (ips users) ≡ false
    → living alive (erase m ip) users ≡ living alive m users
living-erase alive [] m ip h = refl
living-erase alive ((token, i) ∷ users) m ip h =
    ground (arith, h, lookup-erase m ip i, living-erase alive users m ip)

lives-erase :
    (alive : ℕ → Bool) (m : Map ℕ) (ip i : ℕ)
    → lives alive (erase m ip) i ≡ (if ip == i then false else lives alive m i)
lives-erase alive m ip i = ground (arith, lookup-erase m ip i)

keep-Dropped :
    (alive : ℕ → Bool) (token ip socket : ℕ) (users m : Map ℕ) (r : Map ℕ × Map ℕ)
    → lookup m ip ≡ some socket
    → alive socket ≡ true
    → elem ip (ips users) ≡ false
    → Dropped alive users m r
    → Dropped alive ((token, ip) ∷ users) m ((token, ip) ∷ r.0, r.1)
keep-Dropped alive token ip socket users m r e a n d = record {
  served = (rw (d.others ip n) (rw e refl), d.fewer ip n, d.served);
  left = ground (arith, e, a, d.left);
  same = d.same;
  gone = λ i h l. ground (arith, e, a, h, l, d.gone i);
  fewer = λ i h. ground (arith, h, d.fewer i);
  others = λ i h. d.others i (ground (arith, h));
}

drop-Dropped :
    (alive : ℕ → Bool) (token ip socket : ℕ) (users m : Map ℕ) (r : Map ℕ × Map ℕ)
    → lookup m ip ≡ some socket
    → alive socket ≡ false
    → elem ip (ips users) ≡ false
    → Dropped alive users (erase m ip) r
    → Dropped alive ((token, ip) ∷ users) m r
drop-Dropped alive token ip socket users m r e a n d = record {
  served = d.served;
  left = ground (arith, e, a, d.left, living-erase alive users m ip n);
  same = λ i l. ground (arith, e, a, l, d.same i, lives-erase alive m ip i, lookup-erase m ip i);
  gone = λ i h l. elim (Bool-cases (elem i (ips users))) [
    | inl p ↦ d.gone i p (lives-erase alive m ip i ∙ ground (arith, l))
    | inr p ↦ d.others i p ∙ lookup-erase m ip i ∙ ground (arith, h, p)
  ];
  fewer = λ i h. d.fewer i (ground (arith, h));
  others = λ i h. d.others i (ground (arith, h)) ∙ ground (arith, h, lookup-erase m ip i);
}

drop-alive :
    (alive : ℕ → Bool) (token ip socket : ℕ) (users m : Map ℕ) (r : Map ℕ × Map ℕ)
    → lookup m ip ≡ some socket
    → alive socket ≡ true
    → drop_dead alive users m ≡ some r
    → drop_dead alive ((token, ip) ∷ users) m ≡ some ((token, ip) ∷ r.0, r.1)
unfolding drop_dead
drop-alive alive token ip socket users m r e a k = ground (arith, e, a, k)

drop-dead :
    (alive : ℕ → Bool) (token ip socket : ℕ) (users m : Map ℕ)
    → lookup m ip ≡ some socket
    → alive socket ≡ false
    → drop_dead alive ((token, ip) ∷ users) m ≡ drop_dead alive users (erase m ip)
unfolding drop_dead
drop-dead alive token ip socket users m e a = ground (arith, e, a)

-- Where every user's address has a socket of its own, the loop over the users that have gone uses
-- no null pointer, and leaves the maps so. The users that are left are those whose socket is alive,
-- in the order they had; the addresses of these, and those that no user has, keep their sockets, and
-- the addresses of the others are gone.
pub drop_dead_lem :
    (alive : ℕ → Bool) (users m : Map ℕ)
    → Served users m
    → (r : Map ℕ × Map ℕ) × (drop_dead alive users m ≡ some r) × Dropped alive users m r
drop_dead_lem alive [] m s = (
  ([], m),
  unfold drop_dead in refl,
  record {
    served = tt;
    left = refl;
    same = λ ip l. refl;
    gone = λ ip h l. absurd (ground (arith, h));
    fewer = λ ip e. e;
    others = λ ip e. refl;
  },
)
drop_dead_lem alive ((token, ip) ∷ users) m s = elim (Option-cases (lookup m ip)) [
  | inl e ↦ absurd (ground (arith, e, s.0))
  | inr (socket, e) ↦ elim (Bool-cases (alive socket)) [
    | inl a ↦
        let rest = drop_dead_lem alive users m s.2 in
        (
          ((token, ip) ∷ rest.0.0, rest.0.1),
          drop-alive alive token ip socket users m rest.0 e a rest.1,
          keep-Dropped alive token ip socket users m rest.0 e a s.1 rest.2,
        )
    | inr a ↦
        let rest = drop_dead_lem alive users (erase m ip) (Served-erase users m ip s.1 s.2) in
        (
          rest.0,
          drop-dead alive token ip socket users m e a ∙ rest.1,
          drop-Dropped alive token ip socket users m rest.0 e a s.1 rest.2,
        )
  ]
]
