-- ===== src/Vpn/Lifecycle.antt =====
-- The life of `SharpVpn` in src/SharpVpn.cpp: the constructor, `init`, `run` up to the start of its
-- threads, and `stop`. What the network answers, and the file system, is a parameter.
pub mod Shutdown
pub mod History
pub mod Tests
use sharpvpn.Base.{
  Str, ℕ, zero, suc, ◌+◌, ℤ, pos, List, [], ◌∷◌, ◌++◌, Bool, true, false, not, ◌&&◌, ◌==◌, Option,
  none, some, if◌then◌else◌,
}
use sharpvpn.Vpn.Args.{VpnArgs, SharpvpnMode, server, client}
use sharpvpn.Tunnel.{Run, Kernel, new_tunnel}
use sharpvpn.Tunnel
use sharpvpn.RouteTable.{RouteRow, RouteTable, System, Request}
use sharpvpn.RouteTable.Chnroute.{Call, set_chnroute, set_default_as_tunnel, delete_chnroute}
use sharpvpn.Socket.Segments.{tunnel_mtu_of}

pub data VpnStatus : Type 0 where
  not_running connecting_server connected closed : VpnStatus

-- The object, with the requests to the kernel's routing table, the calls of the handler, the
-- addresses that were pinged and the number of calls of `close_addr`, so far.
pub record Vpn : Type 0 where
  pub args : VpnArgs
  pub running : Bool
  pub status : VpnStatus
  pub handler : Bool
  pub tunnel : Run
  pub table : RouteTable
  pub requests : List Request
  pub notified : List VpnStatus
  pub pinged : List Str
  pub socket_closes : ℕ

-- What the calls find. `memory` is what the buffers of `set_chnroute` and `delete_chnroute` hold.
pub record World : Type 0 where
  pub kernel : Kernel
  pub binds : Bool
  pub connects : Bool
  pub given_ip : ℕ
  pub system : System
  pub strtol : Str → ℤ
  pub files : Str → Option (List Str)
  pub set_memory : ℕ → ℕ
  pub delete_memory : ℕ → ℕ
  pub default_row : RouteRow

abbrev pub is_server : SharpvpnMode → Bool
is_server server = true
is_server client = false

abbrev pub is_connected : VpnStatus → Bool
is_connected not_running = false
is_connected connecting_server = false
is_connected connected = true
is_connected closed = false

-- The constructor. `running` and the two numbers of the tunnel are what memory holds.
abbrev pub new_vpn : VpnArgs → Bool → Bool → ℕ → ℕ → Vpn
new_vpn args running handler fd ip = record {
  args = args;
  running = running;
  status = not_running;
  handler = handler;
  tunnel = record {
    tunnel = new_tunnel fd ip args.tunnel_name args.tunnel_ip (pos (tunnel_mtu_of args.mtu));
    calls = [];
  };
  table = record { modified = false; tunnel_gateway = []; default_gateway = []; default_dev = [] };
  requests = [];
  notified = [];
  pinged = [];
  socket_closes = 0;
}

-- The call of the handler, where there is one, and a change of `vpn_status` with the call after it.
abbrev pub notify : VpnStatus → Vpn → Vpn
notify s v = record v { notified = if v.handler then v.notified ++ (s ∷ []) else v.notified }

abbrev pub change_status : VpnStatus → Vpn → Vpn
change_status s v = notify s (record v { status = s })

-- The parts of `end_ip`, the string up to its last dot: all of it, where there is none.
abbrev before_last_dot : Str → Option Str
before_last_dot [] = none
before_last_dot (c ∷ s) = elim (before_last_dot s) [
  | some t ↦ some (c ∷ t)
  | none ↦ if c == b'.' then some [] else none
]

abbrev pub end_ip : Str → Str
end_ip s = elim (before_last_dot s) [ some t ↦ t | none ↦ s ]

-- ".254"
abbrev last_host : Str
last_host = b'.' ∷ b'2' ∷ b'5' ∷ b'4' ∷ []

module _ (w : World) where
  -- Whether it returns 0.
  unfoldable pub init : Vpn → Bool × Vpn
  init v =
      let (result, t) = Tunnel.init w.kernel (is_server v.args.mode) v.tunnel in
      let v' = record v { tunnel = t } in
      elim result [
        | none ↦ (false, v')
        | some x ↦ (if is_server v.args.mode then w.binds else true, v')
      ]

  -- What a client does once it is connected: its address, the routes of the file, and the routes of
  -- the tunnel.
  abbrev pub set_client_ip : Vpn → Vpn
  set_client_ip v = record v { tunnel = (Tunnel.set_ip w.kernel w.given_ip v.tunnel).1 }

  abbrev pub set_routes : Vpn → Vpn
  set_routes v =
      let set =
        set_chnroute w.system w.strtol w.files w.set_memory w.default_row v.args.chnroute_file
          v.args.bind_host v.table in
      record v { table = set.table; requests = v.requests ++ set.requests }

  abbrev pub set_default : Vpn → Vpn
  set_default v =
      let up =
        set_default_as_tunnel w.system v.args.tunnel_name v.tunnel.tunnel.tunnel_gateway v.table in
      record v { table = up.table; requests = v.requests ++ up.requests }

  abbrev set_up : Vpn → Vpn
  set_up v = set_default (set_routes (set_client_ip v))

  -- With no call of `stop` before it returns; Vpn.Lifecycle.History has one at every point of it.
  unfoldable pub run : Vpn → Bool × Vpn
  run v =
      let started = record v { running = true } in
      let connecting = change_status connecting_server started in
      if is_server v.args.mode
      then (true, started)
      else (if w.connects
          then (true, set_up (change_status connected connecting))
          else (false, connecting))

  -- The routes are deleted by a client that was connected.
  abbrev pub clear_routes : Vpn → Vpn
  clear_routes v =
      let deleted =
        delete_chnroute w.system w.strtol w.files w.delete_memory v.args.chnroute_file v.table in
      if not (is_server v.args.mode) && is_connected v.status
      then record v { table = deleted.table; requests = v.requests ++ deleted.requests }
      else v

  unfoldable pub stop : Vpn → Vpn
  stop v =
      let v₁ = record v {
        running = false;
        pinged = v.pinged ++ ((end_ip v.args.tunnel_ip ++ last_host) ∷ []);
        tunnel = Tunnel.shutdown v.tunnel;
      } in
      let v₂ = clear_routes v₁ in
      let v₃ = change_status closed (record v₂ { socket_closes = v₂.socket_closes + 1 }) in
      if v.running then v₃ else v
