-- ===== src/Vpn/Server.antt =====
-- `func_socket` and the tunnel thread of src/SharpVpn.cpp: which client has which address. A client
-- socket is its address, and a token a number in place of the string, which is only compared.
pub mod Dropping
pub mod Registering
use sharpvpn.Base.{
  ℕ, ◌≡◌, List, [], ◌∷◌, if◌then◌else◌, Bool, true, false, Option, none, some, is_some, elem, leb,
}
use mathlib.Core.Option
use sharpvpn.PackageParser.{daddr, is_sent_on}
use sharpvpn.Vpn.Addresses.{get_useable_ip}
use sharpvpn.Vpn.Maps.{Map, lookup, erase, assign}

pub record Server : Type 0 where
  pub user_map : Map ℕ
  pub ip_map : Map ℕ

-- The loop over the users that have gone. `none` is the use of a null pointer, where a user's
-- address has no socket.
unfoldable pub drop_dead : (ℕ → Bool) → Map ℕ → Map ℕ → Option (Map ℕ × Map ℕ)
drop_dead alive [] ip_map = some ([], ip_map)
drop_dead alive ((token, ip) ∷ users) ip_map =
    let kept = drop_dead alive users ip_map in
    let gone = drop_dead alive users (erase ip_map ip) in
    elim (lookup ip_map ip) [
      | none ↦ none
      | some socket ↦ if alive socket then Option.map (λ r. ((token, ip) ∷ r.0, r.1)) kept else gone
    ]

-- The address that a client gets for its token, and the server after it: a known token keeps its
-- address, and the socket that had it is closed.
unfoldable pub register : (ℕ → ℕ) → ℕ → ℕ → ℕ → Server → Option (ℕ × Server)
register htonl local_tunnel_ip socket token s = elim (lookup s.user_map token) [
  | none ↦
      let ip = get_useable_ip htonl local_tunnel_ip s.ip_map in
      some
        (ip, record { user_map = assign s.user_map token ip; ip_map = assign s.ip_map ip socket })
  | some ip ↦ elim (lookup s.ip_map ip) [
    | none ↦ none
    | some old ↦ some (ip, record s { ip_map = assign s.ip_map ip socket })
  ]
]

-- Where the tunnel thread of a server sends a package of `r` bytes: `none` where it drops it.
unfoldable pub route : (ℕ → Bool) → Server → ℕ → (ℕ → ℕ) → Option ℕ
route alive s r raw =
    if leb r 0
    then none
    else (if is_sent_on raw
        then elim (lookup s.ip_map (daddr raw)) [
          | none ↦ none
          | some socket ↦ if alive socket then some socket else none
        ]
        else none)

abbrev pub ips : Map ℕ → List ℕ
ips [] = []
ips ((token, ip) ∷ users) = ip ∷ ips users

-- Every user's address has a socket, and no two users share one.
abbrev pub Served : Map ℕ → Map ℕ → Type 0
Served [] ip_map = Unit {0}
Served ((token, ip) ∷ users) ip_map =
    (is_some (lookup ip_map ip) ≡ true) × (elem ip (ips users) ≡ false) × Served users ip_map
