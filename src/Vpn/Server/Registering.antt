-- ===== src/Vpn/Server/Registering.antt =====
-- The registration of clients and the routing to them, in src/SharpVpn.cpp.
use sharpvpn.Base.{
  ℕ, ◌+◌, ◌^◌, ◌<◌, ◌≡◌, ◌≢◌, refl, sym, ap, ◌∙◌, [], ◌∷◌, if◌then◌else◌, ◌==◌, Bool, true, false,
  not, ◌&&◌, Option, none, some, is_some, arith, elem, length, Bool-cases, Option-cases, inl, inr,
  leb,
}
use sharpvpn.PackageParser.{daddr, is_sent_on}
use sharpvpn.Vpn.Addresses.{get_useable_ip, get_useable_ip_lem}
use sharpvpn.Vpn.Maps.{Map, lookup, erase, assign, lookup-assign}
use sharpvpn.Vpn.Server.{Server, register, route, ips, Served}
use sharpvpn.Vpn.Server.Dropping.{Served-assign}

-- A free address is no user's.
free_ip :
    (users m : Map ℕ) (ip : ℕ) → Served users m → lookup m ip ≡ none → elem ip (ips users) ≡ false
free_ip [] m ip s e = refl
free_ip ((token, i) ∷ users) m ip s e = ground (arith, s.0, e, free_ip users m ip s.2 e)

elem-erase :
    (users : Map ℕ) (token ip : ℕ)
    → elem ip (ips users) ≡ false
    → elem ip (ips (erase users token)) ≡ false
unfolding erase
elem-erase [] token ip h = h
elem-erase ((t, i) ∷ users) token ip h = ground (arith, h, elem-erase users token ip)

erase-Served : (users m : Map ℕ) (token : ℕ) → Served users m → Served (erase users token) m
unfolding erase
erase-Served [] m token s = tt
erase-Served ((t, i) ∷ users) m token s = elim (Bool-cases (t == token)) [
  | inl e ↦ rw e (erase-Served users m token s.2)
  | inr e ↦ rw e (s.0, elem-erase users token i s.1, erase-Served users m token s.2)
]

Served-lookup :
    (users m : Map ℕ) (token ip : ℕ)
    → Served users m
    → lookup users token ≡ some ip
    → is_some (lookup m ip) ≡ true
unfolding lookup
Served-lookup [] m token ip s e = ground (arith, e)
Served-lookup ((t, i) ∷ users) m token ip s e =
    ground (arith, s.0, e, Served-lookup users m token ip s.2)

-- What a client that registers gets.
pub record Registered (socket token : ℕ) (s : Server) (r : ℕ × Server) : Type 0 where
  pub user : lookup r.1.user_map token ≡ some r.0
  pub reaches : lookup r.1.ip_map r.0 ≡ some socket
  pub other_users :
      (k : ℕ) → lookup r.1.user_map k ≡ (if token == k then some r.0 else lookup s.user_map k)
  pub other_ips :
      (i : ℕ) → lookup r.1.ip_map i ≡ (if r.0 == i then some socket else lookup s.ip_map i)
  pub served : Served r.1.user_map r.1.ip_map

register-known :
    (htonl : ℕ → ℕ) (local_tunnel_ip socket token ip old : ℕ) (s : Server)
    → lookup s.user_map token ≡ some ip
    → lookup s.ip_map ip ≡ some old
    → register htonl local_tunnel_ip socket token s
      ≡ some (ip, record s { ip_map = assign s.ip_map ip socket })
unfolding register
register-known htonl local_tunnel_ip socket token ip old s e o = ground (arith, e, o)

register-new :
    (htonl : ℕ → ℕ) (local_tunnel_ip socket token : ℕ) (s : Server)
    → lookup s.user_map token ≡ none
    → let ip = get_useable_ip htonl local_tunnel_ip s.ip_map in
      register htonl local_tunnel_ip socket token s
      ≡ some
          (ip, record { user_map = assign s.user_map token ip; ip_map = assign s.ip_map ip socket })
unfolding register
register-new htonl local_tunnel_ip socket token s e = ground (arith, e)

known-Registered :
    (socket token ip : ℕ) (s : Server)
    → lookup s.user_map token ≡ some ip
    → Served s.user_map s.ip_map
    → Registered socket token s (ip, record s { ip_map = assign s.ip_map ip socket })
known-Registered socket token ip s e v = record {
  user = e;
  reaches = ground (arith, lookup-assign s.ip_map ip ip socket);
  other_users = λ k. known k;
  other_ips = λ i. lookup-assign s.ip_map ip i socket;
  served = Served-assign s.user_map s.ip_map ip socket v;
}
  where
    known : (k : ℕ) → lookup s.user_map k ≡ (if token == k then some ip else lookup s.user_map k)
    known k = ground (arith, e)

new-Registered :
    (socket token ip : ℕ) (s : Server)
    → lookup s.ip_map ip ≡ none
    → Served s.user_map s.ip_map
    → Registered socket token s
        (ip, record { user_map = assign s.user_map token ip; ip_map = assign s.ip_map ip socket })
unfolding assign
new-Registered socket token ip s n v = record {
  user = ground (arith, lookup-assign s.user_map token token ip);
  reaches = ground (arith, lookup-assign s.ip_map ip ip socket);
  other_users = λ k. lookup-assign s.user_map token k ip;
  other_ips = λ i. lookup-assign s.ip_map ip i socket;
  served = (
    ground (arith, lookup-assign s.ip_map ip ip socket),
    elem-erase s.user_map token ip (free_ip s.user_map s.ip_map ip v n),
    Served-assign (erase s.user_map token) s.ip_map ip socket
        (erase-Served s.user_map s.ip_map token v),
  );
}

-- While fewer than 199 addresses are in use, each user's address has a socket of its own, and
-- `htonl` keeps the addresses apart, which do not wrap: a client is registered without the use of
-- a null pointer, its token gets an address, which reaches its socket, no other user or address
-- changes, and again each user's address has a socket of its own.
pub register_lem :
    (htonl : ℕ → ℕ) (local_tunnel_ip socket token : ℕ) (s : Server)
    → ((a b : ℕ) → a < b → b < 2 ^ 32 → htonl a ≢ htonl b)
    → local_tunnel_ip + 200 < 2 ^ 32
    → length s.ip_map < 199
    → Served s.user_map s.ip_map
    → (r : ℕ × Server) × (register htonl local_tunnel_ip socket token s ≡ some r)
      × Registered socket token s r
register_lem htonl local_tunnel_ip socket token s inj b l v =
    elim (Option-cases (lookup s.user_map token)) [
      | inl e ↦
          let ip = get_useable_ip_lem htonl local_tunnel_ip s.ip_map inj b l in
          (
            _,
            register-new htonl local_tunnel_ip socket token s e,
            new-Registered socket token (get_useable_ip htonl local_tunnel_ip s.ip_map) s
                (rw (ip.3) (ip.4)) v,
          )
      | inr (ip, e) ↦ elim (Option-cases (lookup s.ip_map ip)) [
        | inl n ↦ absurd (ground (arith, n, Served-lookup s.user_map s.ip_map token ip v e))
        | inr (old, o) ↦ (
          _,
          register-known htonl local_tunnel_ip socket token ip old s e o,
          known-Registered socket token ip s e v,
        )
      ]
    ]

-- The socket that the address of a registration reaches.
abbrev reach : Option (ℕ × Server) → Option ℕ
reach none = none
reach (some r) = lookup r.1.ip_map r.0

-- After a registration, under the conditions of `register_lem`, a package from the tunnel device
-- whose destination is the address given out goes to the socket that was registered, if that is
-- alive, the package is not empty, and it is of IPv4 and not multicast; else it is dropped.
pub route-register :
    (htonl : ℕ → ℕ) (alive : ℕ → Bool) (local_tunnel_ip socket token r : ℕ) (raw : ℕ → ℕ)
    (s t : Server) (ip : ℕ)
    → ((a b : ℕ) → a < b → b < 2 ^ 32 → htonl a ≢ htonl b)
    → local_tunnel_ip + 200 < 2 ^ 32
    → length s.ip_map < 199
    → Served s.user_map s.ip_map
    → register htonl local_tunnel_ip socket token s ≡ some (ip, t)
    → daddr raw ≡ ip
    → route alive t r raw
      ≡ (if not (leb r 0) && is_sent_on raw && alive socket then some socket else none)
unfolding route
route-register htonl alive local_tunnel_ip socket token r raw s t ip inj b l v e d =
    let done = register_lem htonl local_tunnel_ip socket token s inj b l v in
    let there : lookup t.ip_map ip ≡ some socket =
      sym (ap reach (sym done.1 ∙ e)) ∙ done.2.reaches in
    ground (arith, d, there)
