-- ===== src/Vpn/Tests.antt =====
-- A server with one client, and the theorems at concrete inputs. `htonl` is that of a machine whose
-- byte order is the network's.
use sharpvpn.Vpn.Lifecycle.Tests.{world, vpn}
use sharpvpn.Vpn.Lifecycle.{stop}
use sharpvpn.Vpn.Forward.{
  Received, segment, failed, try_again, other, func_socket, written, overruns, func_socket_lem,
}
use sharpvpn.Base.{
  List, ℕ, Bool, ◌^◌, ◌<◌, ◌≡◌, ◌≢◌, ◌==◌, refl, [], ◌∷◌, if◌then◌else◌, true, false, not, ◌&&◌,
  leb, none, some, arith,
}
use sharpvpn.PackageParser.{is_sent_on, daddr}
use sharpvpn.Vpn.Addresses.{get_useable_ip, search}
use sharpvpn.Vpn.Args.{
  VpnArgs, client, json_of, get_default_args, parse_file_args, refresh_args_file,
  parse_file_args-refresh_args_file,
}
use sharpvpn.Vpn.Maps.{Map, lookup, erase, assign}
use sharpvpn.Vpn.Server.{Server, register, route, drop_dead, Served}
use sharpvpn.Vpn.Server.Dropping.{Dropped, drop_dead_lem}
use sharpvpn.Vpn.Server.Registering.{Registered, register_lem, route-register}

abbrev htonl_same : ℕ → ℕ
htonl_same x = x

htonl_same_apart : (a b : ℕ) → a < b → b < 2 ^ 32 → htonl_same a ≢ htonl_same b
htonl_same_apart a b h k e = omega (arith, h, e)

-- Client socket 7 has the address 1001 for the token 5.
abbrev one_client : Server
one_client = record { user_map = (5, 1001) ∷ []; ip_map = (1001, 7) ∷ [] }

register_next :
    register htonl_same 1000 8 6 one_client
    ≡ some (
      1002,
      record { user_map = (6, 1002) ∷ (5, 1001) ∷ []; ip_map = (1002, 8) ∷ (1001, 7) ∷ [] },
    )
unfolding register get_useable_ip search lookup assign erase
register_next = refl

one_client-Served : Served one_client.user_map one_client.ip_map
unfolding lookup
one_client-Served = (refl, refl, tt)

-- Two users, of whom the first has a dead socket, and an address that is no user's.
abbrev users : Map ℕ
users = (6, 1002) ∷ (5, 1001) ∷ []

abbrev sockets : Map ℕ
sockets = (1002, 8) ∷ (1001, 7) ∷ (1003, 9) ∷ []

abbrev alive_7 : ℕ → Bool
alive_7 socket = socket == 7

users-Served : Served users sockets
unfolding lookup
users-Served = (refl, refl, (refl, refl, tt))

drop_first : drop_dead alive_7 users sockets ≡ some ((5, 1001) ∷ [], (1001, 7) ∷ (1003, 9) ∷ [])
unfolding drop_dead lookup erase
drop_first = refl

drop_dead_lem_example :
    (r : Map ℕ × Map ℕ) × (drop_dead alive_7 users sockets ≡ some r)
    × Dropped alive_7 users sockets r
drop_dead_lem_example = drop_dead_lem alive_7 users sockets users-Served

register_lem_example :
    (r : ℕ × Server) × (register htonl_same 1000 8 6 one_client ≡ some r)
    × Registered 8 6 one_client r
register_lem_example =
    register_lem htonl_same 1000 8 6 one_client htonl_same_apart (omega arith) (omega arith)
      one_client-Served

-- An IPv4 package to the address 1002.
abbrev raw_package : ℕ → ℕ
raw_package i = if i == 0 then 69 else (if i == 16 then 234 else (if i == 17 then 3 else 0))

abbrev two_clients : Server
two_clients = record { user_map = (6, 1002) ∷ (5, 1001) ∷ []; ip_map = (1002, 8) ∷ (1001, 7) ∷ [] }

route-register_example :
    route (λ _. true) two_clients 20 raw_package
    ≡ (if not (leb 20 0) && is_sent_on raw_package && true then some 8 else none)
unfolding daddr
route-register_example =
    route-register htonl_same (λ _. true) 1000 8 6 20 raw_package one_client two_clients 1002
      htonl_same_apart (omega arith) (omega arith) one_client-Served register_next refl

-- A client's configuration.
abbrev client_args : VpnArgs
client_args = record get_default_args { mode = client; mtu = 1400; log_file = []; error = true }

parse_file_args-refresh_args_file_example :
    ((refresh_args_file (λ j. j) true client_args (json_of get_default_args)).0 ≡ true)
    × (parse_file_args
          (some (refresh_args_file (λ j. j) true client_args (json_of get_default_args)).1)
        ≡ record client_args {
          pid_file = get_default_args.pid_file;
          log_file = get_default_args.log_file;
          error = false;
        })
    × (refresh_args_file (λ j. j) false client_args (json_of get_default_args)
        ≡ (false, json_of get_default_args))
parse_file_args-refresh_args_file_example =
    parse_file_args-refresh_args_file (λ j. j) some (λ j. refl) client_args
      (json_of get_default_args)

-- A segment, nothing, an error that is let pass, and one that ends the loop.
abbrev results : List Received
results =
    segment (1 ∷ 2 ∷ []) ∷ segment [] ∷ failed try_again ∷ failed other ∷ segment (3 ∷ []) ∷ []

func_socket_lem_example :
    (written (func_socket world results vpn).0 ≡ (1 ∷ 2 ∷ []) ∷ [])
    × (overruns (func_socket world results vpn).0 ≡ 1)
    × ((func_socket world results vpn).1 ≡ stop world vpn)
    × ((func_socket world results vpn).1.running ≡ false)
func_socket_lem_example = func_socket_lem world results vpn
