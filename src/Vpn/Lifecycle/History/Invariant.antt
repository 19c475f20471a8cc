-- ===== src/Vpn/Lifecycle/History/Invariant.antt =====
-- What holds in every history of calls of `SharpVpn` (src/SharpVpn.cpp).
use sharpvpn.Base.{ℕ, ◌+◌, ◌≤◌, ◌≡◌, inl, inr, refl, ◌∙◌, [], ◌∷◌, ◌++◌, true, false, arith}
use mathlib.Core.List.{append-nil}
use sharpvpn.Vpn.Args.{VpnArgs}
use sharpvpn.Vpn.Lifecycle.{Vpn, World, closed, is_server, init, stop}
use sharpvpn.Vpn.Lifecycle.History.Actions.{
  Runs, Rests, Sound, IsNew, Holds, Like-either, same_counts, init_told, act-Holds,
}
use sharpvpn.Vpn.Lifecycle.History.{
  Phase, constructed, initialised, begun, connecting, notified_connecting, joined,
  notified_connected, addressed, routed, started, Reachable, construct, init_step, run_step,
  stop_step, in_constructed, openings, openings-append, closings-append, closes, init_closes,
  shutdown_closes,
}

stop_fields :
    (w : World) (v : Vpn)
    → v.handler ≡ true
    → v.running ≡ true
    → ((stop w v).running ≡ false)
      × ((stop w v).notified ≡ v.notified ++ (closed ∷ []))
      × (closes (stop w v).tunnel.calls ≤ closes v.tunnel.calls + 1)
      × ((stop w v).socket_closes ≡ v.socket_closes + 1)
      × ((stop w v).handler ≡ true)
unfolding stop
stop_fields w v e r = ground (arith, e, r, shutdown_closes v.tunnel)

stop_again : (w : World) (v : Vpn) → v.running ≡ false → stop w v ≡ v
unfolding stop
stop_again w v r = ground (arith, r)

-- What runs is not new.
IsNew-running : (p : Phase) (v t : Vpn) → v.running ≡ true → IsNew p v → IsNew p t
IsNew-running constructed v t r n = absurd (ground (arith, r, n))
IsNew-running initialised v t r n = absurd (ground (arith, r, n))
IsNew-running begun v t r n = tt
IsNew-running connecting v t r n = tt
IsNew-running notified_connecting v t r n = tt
IsNew-running joined v t r n = tt
IsNew-running notified_connected v t r n = tt
IsNew-running addressed v t r n = tt
IsNew-running routed v t r n = tt
IsNew-running started v t r n = tt

stop-Rests : (w : World) (v : Vpn) → v.handler ≡ true → Runs v → Rests (stop w v)
stop-Rests w v e h =
    let (r, n, c, k, _) = stop_fields w v e h.running in
    record {
      stopped = r;
      socket_closed = omega (arith, k, h.socket_open);
      told =
          rw n
            (closings-append v.notified (closed ∷ []) ∙ omega (arith, k, h.socket_open, h.untold));
      tunnel_closed = omega (arith, c, k, h.tunnel_open, h.socket_open);
    }

stop-Holds : (w : World) (p : Phase) (v : Vpn) → Holds p v → Holds p (stop w v)
stop-Holds w p v h = elim (h.either) [
  | inr r ↦ rw (stop_again w v r.stopped) h
  | inl r ↦
      let (_, n, _, _, e) = stop_fields w v h.handler r.running in
      record {
        new = IsNew-running p v (stop w v) r.running h.new;
        told = rw n (
            rw (openings-append v.notified (closed ∷ []))
              (rw (append-nil (openings v.notified)) h.told));
        either = inr (stop-Rests w v h.handler r);
        handler = e;
      }
]

init_fields :
    (w : World) (v : Vpn)
    → (init w v).0 ≡ true
    → ((init w v).1.running ≡ v.running)
      × ((init w v).1.notified ≡ v.notified)
      × (closes (init w v).1.tunnel.calls ≡ closes v.tunnel.calls)
      × ((init w v).1.socket_closes ≡ v.socket_closes)
      × ((init w v).1.handler ≡ v.handler)
unfolding init
init_fields w v h =
    ground (arith, h, init_closes w.kernel (is_server v.args.mode) v.tunnel (ground (arith, h)))

init-Holds :
    (w : World) (v : Vpn)
    → (init w v).0 ≡ true
    → Holds constructed v
    → Holds initialised (init w v).1
init-Holds w v o h =
    let (r, n, c, k, e) = init_fields w v o in
    record {
      new = (r ∙ h.new.0, k ∙ h.new.1);
      told = rw n (init_told _ h.told);
      either = Like-either v (init w v).1 (same_counts v _ r n c k) h.either;
      handler = e ∙ h.handler;
    }

Reachable-Holds :
    {args : VpnArgs} {fd ip : ℕ} {p : Phase} {v : Vpn} → Reachable args true fd ip p v → Holds p v
Reachable-Holds construct = record {
  new = (refl, refl);
  told = in_constructed;
  either = inr (record {
    stopped = refl;
    socket_closed = omega arith;
    told = refl;
    tunnel_closed = omega arith;
  });
  handler = refl;
}
Reachable-Holds (init_step w r h) = init-Holds w _ h (Reachable-Holds r)
Reachable-Holds (run_step w r) = act-Holds w _ _ (Reachable-Holds r)
Reachable-Holds (stop_step w r) = stop-Holds w _ _ (Reachable-Holds r)

-- In every history of a VPN with a handler, whose `running` is false to begin with, with calls of
-- `stop` between any two actions of `run` too: the handler is told that the VPN connects, and that
-- it is connected, each at most once, in this order and in no phase but those after the call, and
-- that it is closed at most once. While it runs nothing was closed and the handler was not told so;
-- while it does not run, the socket was closed as often as the handler was told that the VPN is
-- closed, which is once at most, and the tunnel's descriptor no more often.
pub Reachable-Sound :
    {args : VpnArgs} {fd ip : ℕ} {p : Phase} {v : Vpn} → Reachable args true fd ip p v → Sound p v
Reachable-Sound r =
    let h = Reachable-Holds r in record { openings_told = h.told; open_or_closed = h.either }
