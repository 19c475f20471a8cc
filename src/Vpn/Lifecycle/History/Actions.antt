-- ===== src/Vpn/Lifecycle/History/Actions.antt =====
-- What holds before and after each action of `SharpVpn::run` (src/SharpVpn.cpp).
use sharpvpn.Base.{
  ◌≤◌, ◌≡◌, ◌⊎◌, inl, inr, refl, ◌∙◌, List, [], ◌∷◌, ◌++◌, true, false, arith, Bool-cases,
}
use sharpvpn.Vpn.Lifecycle.{
  Vpn, World, VpnStatus, connecting_server, connected, is_server, notify, set_client_ip,
}
use sharpvpn.Vpn.Lifecycle.History.{
  Phase, constructed, initialised, begun, connecting, notified_connecting, joined,
  notified_connected, addressed, routed, started, act, Told, in_constructed, in_initialised,
  in_begun, in_connecting, in_notified_connecting, in_joined, in_notified_connected, in_addressed,
  in_routed, served, refused, up, openings, closings, openings-append, closings-append, closes,
  set_ip_closes,
}

-- While it runs nothing was closed, and the handler was not told so.
pub record Runs (v : Vpn) : Type 0 where
  pub running : v.running ≡ true
  pub untold : closings v.notified ≡ 0
  pub tunnel_open : closes v.tunnel.calls ≡ 0
  pub socket_open : v.socket_closes ≡ 0

-- While it does not run the handler was told once for each time the socket was closed, which is
-- once at most, and the tunnel's descriptor was closed no more often.
pub record Rests (v : Vpn) : Type 0 where
  pub stopped : v.running ≡ false
  pub socket_closed : v.socket_closes ≤ 1
  pub told : closings v.notified ≡ v.socket_closes
  pub tunnel_closed : closes v.tunnel.calls ≤ v.socket_closes

-- What holds of a state in each phase.
pub record Sound (p : Phase) (v : Vpn) : Type 0 where
  pub openings_told : Told p (openings v.notified)
  pub open_or_closed : Runs v ⊎ Rests v

-- Before `run` nothing was done.
abbrev pub IsNew : Phase → Vpn → Type 0
IsNew constructed v = (v.running ≡ false) × (v.socket_closes ≡ 0)
IsNew initialised v = (v.running ≡ false) × (v.socket_closes ≡ 0)
IsNew begun v = Unit
IsNew connecting v = Unit
IsNew notified_connecting v = Unit
IsNew joined v = Unit
IsNew notified_connected v = Unit
IsNew addressed v = Unit
IsNew routed v = Unit
IsNew started v = Unit

pub record Holds (p : Phase) (v : Vpn) : Type 0 where
  pub new : IsNew p v
  pub told : Told p (openings v.notified)
  pub either : Runs v ⊎ Rests v
  pub handler : v.handler ≡ true

-- Two states that are alike in what is counted.
pub record Like (v t : Vpn) : Type 0 where
  running : t.running ≡ v.running
  closings_told : closings t.notified ≡ closings v.notified
  tunnel : closes t.tunnel.calls ≡ closes v.tunnel.calls
  socket : t.socket_closes ≡ v.socket_closes

pub Like-either : (v t : Vpn) → Like v t → Runs v ⊎ Rests v → Runs t ⊎ Rests t
Like-either v t l (inl r) = inl (record {
  running = l.running ∙ r.running;
  untold = l.closings_told ∙ r.untold;
  tunnel_open = l.tunnel ∙ r.tunnel_open;
  socket_open = l.socket ∙ r.socket_open;
})
Like-either v t l (inr r) = inr (record {
  stopped = l.running ∙ r.stopped;
  socket_closed = omega (arith, l.socket, r.socket_closed);
  told = omega (arith, l.closings_told, l.socket, r.told);
  tunnel_closed = omega (arith, l.tunnel, l.socket, r.tunnel_closed);
})

-- What `notify` tells, of a VPN with a handler.
notify_lem :
    (s : VpnStatus) (v : Vpn) → v.handler ≡ true → (notify s v).notified ≡ v.notified ++ (s ∷ [])
notify_lem s v h = ground (arith, h)

-- What the handler is told in the two phases that call it, and between phases that do not.
tell_connecting :
    (told : List VpnStatus)
    → Told connecting told
    → Told notified_connecting (told ++ (connecting_server ∷ []))
tell_connecting _ in_connecting = in_notified_connecting

tell_connected :
    (told : List VpnStatus) → Told joined told → Told notified_connected (told ++ (connected ∷ []))
tell_connected _ in_joined = in_notified_connected

begin_told : (told : List VpnStatus) → Told initialised told → Told begun told
begin_told _ in_initialised = in_begun

serve_told : (told : List VpnStatus) → Told begun told → Told started told
serve_told _ in_begun = served

connect_told : (told : List VpnStatus) → Told begun told → Told connecting told
connect_told _ in_begun = in_connecting

join_told : (told : List VpnStatus) → Told notified_connecting told → Told joined told
join_told _ in_notified_connecting = in_joined

refuse_told : (told : List VpnStatus) → Told notified_connecting told → Told started told
refuse_told _ in_notified_connecting = refused

address_told : (told : List VpnStatus) → Told notified_connected told → Told addressed told
address_told _ in_notified_connected = in_addressed

route_told : (told : List VpnStatus) → Told addressed told → Told routed told
route_told _ in_addressed = in_routed

finish_told : (told : List VpnStatus) → Told routed told → Told started told
finish_told _ in_routed = up

pub init_told : (told : List VpnStatus) → Told constructed told → Told initialised told
init_told _ in_constructed = in_initialised

-- An action after which nothing that is counted has changed.
pub same_counts :
    (v t : Vpn)
    → t.running ≡ v.running
    → t.notified ≡ v.notified
    → closes t.tunnel.calls ≡ closes v.tunnel.calls
    → t.socket_closes ≡ v.socket_closes
    → Like v t
same_counts v t r n c k = record { running = r; closings_told = rw n refl; tunnel = c; socket = k }

-- One that calls the handler, though not with `closed`.
notify-Like :
    (s : VpnStatus) (v : Vpn) → v.handler ≡ true → closings (s ∷ []) ≡ 0 → Like v (notify s v)
notify-Like s v h e = record {
  running = refl;
  closings_told = rw (notify_lem s v h) (closings-append v.notified (s ∷ []) ∙ omega (arith, e));
  tunnel = refl;
  socket = refl;
}

-- `run` begins.
begins-Runs : (v : Vpn) → Holds initialised v → Runs (record v { running = true })
begins-Runs v h = elim (h.either) [
  | inl r ↦ absurd (ground (arith, h.new, r.running))
  | inr r ↦ record {
    running = refl;
    untold = r.told ∙ h.new.1;
    tunnel_open = omega (arith, r.tunnel_closed, h.new.1);
    socket_open = h.new.1;
  }
]

pub act-Holds : (w : World) (p : Phase) (v : Vpn) → Holds p v → Holds (act w p v).0 (act w p v).1
act-Holds w constructed v h = h
act-Holds w initialised v h = record {
  new = tt;
  told = begin_told _ h.told;
  either = inl (begins-Runs v h);
  handler = h.handler;
}
act-Holds w begun v h = elim (Bool-cases (is_server v.args.mode)) [
  | inl m ↦
      rw m (record { new = tt; told = serve_told _ h.told; either = h.either; handler = h.handler })
  | inr m ↦ rw m (record {
    new = tt;
    told = connect_told _ h.told;
    either =
        Like-either v (record v { status = connecting_server })
          (same_counts v _ refl refl refl refl) h.either;
    handler = h.handler;
  })
]
act-Holds w connecting v h = record {
  new = tt;
  told =
      rw (notify_lem connecting_server v h.handler)
        (rw (openings-append v.notified (connecting_server ∷ [])) (tell_connecting _ h.told));
  either =
      Like-either v (notify connecting_server v) (notify-Like connecting_server v h.handler refl)
        h.either;
  handler = h.handler;
}
act-Holds w notified_connecting v h = elim (Bool-cases w.connects) [
  | inl c ↦ rw c (record {
    new = tt;
    told = join_told _ h.told;
    either =
        Like-either v (record v { status = connected }) (same_counts v _ refl refl refl refl)
          h.either;
    handler = h.handler;
  })
  | inr c ↦
      rw c
        (record { new = tt; told = refuse_told _ h.told; either = h.either; handler = h.handler })
]
act-Holds w joined v h = record {
  new = tt;
  told =
      rw (notify_lem connected v h.handler)
        (rw (openings-append v.notified (connected ∷ [])) (tell_connected _ h.told));
  either = Like-either v (notify connected v) (notify-Like connected v h.handler refl) h.either;
  handler = h.handler;
}
act-Holds w notified_connected v h = record {
  new = tt;
  told = address_told _ h.told;
  either =
      Like-either v (set_client_ip w v)
        (same_counts v _ refl refl (set_ip_closes w.kernel w.given_ip v.tunnel) refl) h.either;
  handler = h.handler;
}
act-Holds w addressed v h = record {
  new = tt;
  told = route_told _ h.told;
  either = Like-either v _ (same_counts v _ refl refl refl refl) h.either;
  handler = h.handler;
}
act-Holds w routed v h = record {
  new = tt;
  told = finish_told _ h.told;
  either = Like-either v _ (same_counts v _ refl refl refl refl) h.either;
  handler = h.handler;
}
act-Holds w started v h = h
