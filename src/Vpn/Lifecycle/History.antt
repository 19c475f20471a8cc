-- ===== src/Vpn/Lifecycle/History.antt =====
-- Every order in which `main` and the signal handler call the methods of `SharpVpn`
-- (src/SharpVpn.cpp, src/main.cpp): constructed, `init` once, `run` once, action by action, and
-- `stop` at any time after the constructor, so between any two actions of `run` too, as often as
-- there are signals, or once the thread of a client's socket ends. `stop` is one step: after its first action, which clears `running`, no other
-- call of it does anything.
pub mod Actions
pub mod Invariant
use sharpvpn.Base.{
  ℕ, zero, suc, ◌+◌, ◌≤◌, ◌≡◌, refl, sym, ap, ◌∙◌, List, [], ◌∷◌, ◌++◌, Bool, true, false, Option,
  none, some, is_some, if◌then◌else◌, arith, ◌⊎◌, inl, inr, Bool-cases,
}
use sharpvpn.Vpn.Args.{VpnArgs}
use sharpvpn.Vpn.Lifecycle.{
  Vpn, World, VpnStatus, not_running, connecting_server, connected, closed, new_vpn, init, run,
  stop, is_server, notify, set_client_ip, set_routes, set_default,
}
use sharpvpn.Tunnel.{Call, set_address, set_netmask, set_mtu, bring_up, set_iff, close, Kernel, Run}
use sharpvpn.Tunnel
use sharpvpn.RouteTable.Chnroute.{set_chnroute, set_default_as_tunnel, delete_chnroute}

-- How far `main` is: before `init`, before `run`, within `run`, and after it.
pub data Phase : Type 0 where
  constructed initialised begun connecting notified_connecting : Phase
  joined notified_connected addressed routed started : Phase

-- The next action of `run`. An assignment of `vpn_status` and the call of the handler behind it are
-- two actions; `connect_addr` is one with the assignment, as it changes no field.
abbrev pub act : World → Phase → Vpn → Phase × Vpn
act w constructed v = (constructed, v)
act w initialised v = (begun, record v { running = true })
act w begun v =
    if is_server v.args.mode
    then (started, v)
    else (connecting, record v { status = connecting_server })
act w connecting v = (notified_connecting, notify connecting_server v)
act w notified_connecting v =
    if w.connects then (joined, record v { status = connected }) else (started, v)
act w joined v = (notified_connected, notify connected v)
act w notified_connected v = (addressed, set_client_ip w v)
act w addressed v = (routed, set_routes w v)
act w routed v = (started, set_default w v)
act w started v = (started, v)

abbrev pub acts : ℕ → World → Phase × Vpn → Phase × Vpn
acts zero w (p, v) = (p, v)
acts (suc n) w (p, v) = acts n w (act w p v)

-- The actions, one after the other, are `run`.
acts-run : (w : World) (v : Vpn) → acts 8 w (initialised, v) ≡ (started, (run w v).1)
unfolding run
acts-run w v = elim (Bool-cases (is_server v.args.mode)) [
  | inl m ↦ ground (arith, m)
  | inr m ↦ elim (Bool-cases w.connects) [
    | inl c ↦ ground (arith, m, c)
    | inr c ↦ ground (arith, m, c)
  ]
]

-- The states that a history of calls leads to. Each step finds a world of its own. `running` is
-- false to begin with, which the constructor leaves to chance.
pub data Reachable (args : VpnArgs) (handler : Bool) (fd ip : ℕ) : Phase → Vpn → Type 0 where
  construct : Reachable args handler fd ip constructed (new_vpn args false handler fd ip)
  init_step :
      {v : Vpn} (w : World)
      → Reachable args handler fd ip constructed v
      → (init w v).0 ≡ true
      → Reachable args handler fd ip initialised (init w v).1
  run_step :
      {v : Vpn} {p : Phase} (w : World)
      → Reachable args handler fd ip p v
      → Reachable args handler fd ip (act w p v).0 (act w p v).1
  stop_step :
      {v : Vpn} {p : Phase} (w : World)
      → Reachable args handler fd ip p v
      → Reachable args handler fd ip p (stop w v)

-- What the handler was told, less that the VPN is closed, and how often it was told that.
abbrev is_closed : VpnStatus → Bool
is_closed not_running = false
is_closed connecting_server = false
is_closed connected = false
is_closed closed = true

abbrev pub openings : List VpnStatus → List VpnStatus
openings [] = []
openings (s ∷ told) = if is_closed s then openings told else s ∷ openings told

abbrev pub closings : List VpnStatus → ℕ
closings [] = 0
closings (s ∷ told) = if is_closed s then suc (closings told) else closings told

pub openings-append : (a b : List VpnStatus) → openings (a ++ b) ≡ openings a ++ openings b
openings-append [] b = refl
openings-append (s ∷ a) b = ground (arith, openings-append a b)

pub closings-append : (a b : List VpnStatus) → closings (a ++ b) ≡ closings a + closings b
closings-append [] b = omega arith
closings-append (s ∷ a) b = ground (arith, closings-append a b)

-- What it was told in each phase; after `run`, as a server, as a client that did not connect, or as
-- one that did.
pub data Told : Phase → List VpnStatus → Type 0 where
  in_constructed : Told constructed []
  in_initialised : Told initialised []
  in_begun : Told begun []
  in_connecting : Told connecting []
  in_notified_connecting : Told notified_connecting (connecting_server ∷ [])
  in_joined : Told joined (connecting_server ∷ [])
  in_notified_connected : Told notified_connected (connecting_server ∷ connected ∷ [])
  in_addressed : Told addressed (connecting_server ∷ connected ∷ [])
  in_routed : Told routed (connecting_server ∷ connected ∷ [])
  served : Told started []
  refused : Told started (connecting_server ∷ [])
  up : Told started (connecting_server ∷ connected ∷ [])

-- How often a call closes a descriptor.
abbrev pub closes : List Call → ℕ
closes [] = 0
closes (close fd ∷ calls) = suc (closes calls)
closes (set_address n a ∷ calls) = closes calls
closes (set_netmask n a ∷ calls) = closes calls
closes (set_mtu n m ∷ calls) = closes calls
closes (bring_up n ∷ calls) = closes calls
closes (set_iff fd n ∷ calls) = closes calls

closes-append : (xs ys : List Call) → closes (xs ++ ys) ≡ closes xs + closes ys
closes-append [] ys = omega arith
closes-append (close fd ∷ xs) ys = omega (arith, closes-append xs ys)
closes-append (set_address n a ∷ xs) ys = closes-append xs ys
closes-append (set_netmask n a ∷ xs) ys = closes-append xs ys
closes-append (set_mtu n m ∷ xs) ys = closes-append xs ys
closes-append (bring_up n ∷ xs) ys = closes-append xs ys
closes-append (set_iff fd n ∷ xs) ys = closes-append xs ys

configure_closes :
    (k : Kernel) (ip : ℕ) (r : Run) → closes (Tunnel.configure k ip r).1.calls ≡ closes r.calls
unfolding Tunnel.configure
configure_closes k ip r = grind (arith, closes-append)

pub init_closes :
    (k : Kernel) (setip : Bool) (r : Run)
    → (Tunnel.init k setip r).0 ≡ some tt
    → closes (Tunnel.init k setip r).1.calls ≡ closes r.calls
unfolding Tunnel.init Tunnel.set_own_ip
init_closes k setip r h = grind (arith, closes-append, configure_closes)

pub set_ip_closes :
    (k : Kernel) (ip : ℕ) (r : Run) → closes (Tunnel.set_ip k ip r).1.calls ≡ closes r.calls
unfolding Tunnel.set_ip
set_ip_closes k ip r = grind (arith, configure_closes k ip r)

pub shutdown_closes : (r : Run) → closes (Tunnel.shutdown r).calls ≤ closes r.calls + 1
unfolding Tunnel.shutdown
shutdown_closes r = grind (arith, closes-append)
