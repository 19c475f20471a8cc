-- ===== src/Vpn/Lifecycle/Tests.antt =====
-- Runs of a client's life on small inputs.
use sharpvpn.Base.{
  Str, ◌-◌, ◌≡◌, refl, address, invalid, Pton, pos, List, [], ◌∷◌, map, true, false, some,
}
use sharpvpn.Vpn.Args.{VpnArgs, client, get_default_args}
use sharpvpn.Vpn.Lifecycle.{Vpn, World, stop, init, new_vpn, closed, connected, connecting_server}
use sharpvpn.Vpn.Lifecycle.History.{
  Reachable, construct, init_step, run_step, stop_step, acts, initialised, joined, started,
}
use sharpvpn.Vpn.Lifecycle.History.Invariant.{Reachable-Sound}
use sharpvpn.Vpn.Lifecycle.History.Actions.{Sound}
use sharpvpn.Tunnel
use sharpvpn.Tunnel.{Kernel}
use sharpvpn.RouteTable.{RouteRow, new_row, done}
use sharpvpn.RouteTable.Chnroute.{host_row}
use sharpvpn.RouteTable.Lines.{line_of, row_of}

abbrev kernel : Kernel
kernel = record {
  open_tun = some 3;
  succeeds = λ c. true;
  inet_pton = λ s. address 16777215;
  inet_ntoa = λ x. b'2' ∷ [];
  htonl = λ x. x;
  ntohl = λ x. x;
}

abbrev digit : Str → Pton
digit [] = invalid
digit (c ∷ s) = address (c - 48)

-- The line `8/9`.
abbrev one_line : List (Str × Str)
one_line = ((b'8' ∷ []), (b'9' ∷ [])) ∷ []

abbrev pub world : World
world = record {
  kernel = kernel;
  binds = true;
  connects = true;
  given_ip = 5;
  system = record { inet_pton = digit; htonl = λ n. n; ioctl = λ q. done };
  strtol = λ s. pos 9;
  files = λ name. some (map line_of one_line);
  set_memory = λ i. 0;
  delete_memory = λ i. 0;
  default_row = record new_row { gateway = b'1' ∷ []; dev = b'e' ∷ [] };
}

abbrev args : VpnArgs
args = record get_default_args {
  mode = client;
  bind_host = b'7' ∷ [];
  chnroute_file = b'f' ∷ [];
  tunnel_name = b't' ∷ [];
}

abbrev pub vpn : Vpn
vpn = new_vpn args false true 0 0

-- The row of that line.
abbrev line_row : RouteRow
line_row =
    row_of (λ s. pos 9) (host_row world.system world.default_row (b'7' ∷ []))
      ((b'8' ∷ []), (b'9' ∷ []))

-- The gateway of the tunnel.
abbrev gateway : Str
gateway = b'2' ∷ []

init_works : (init world vpn).0 ≡ true
unfolding init Tunnel.init
init_works = refl

-- A client that is stopped when its status is `connected` and the handler was not told so yet: `run`
-- goes on, and a second `stop` changes nothing.
abbrev early : Vpn
early = (acts 4 world (initialised, (init world vpn).1)).1

abbrev late : Vpn
late = (acts 4 world (joined, stop world early)).1

two_stops : Reachable args true 0 0 started (stop world late)
unfolding init Tunnel.init
two_stops =
    let r₀ = init_step world construct init_works in
    let r₄ = run_step world (run_step world (run_step world (run_step world r₀))) in
    let r₅ = stop_step world r₄ in
    stop_step world (run_step world (run_step world (run_step world (run_step world r₅))))

-- The handler hears that the VPN is closed before it hears that it is connected.
closed_first : late.notified ≡ connecting_server ∷ closed ∷ connected ∷ []
unfolding init stop Tunnel.init
closed_first = refl

Reachable-Sound_example : Sound started (stop world late)
Reachable-Sound_example = Reachable-Sound two_stops
