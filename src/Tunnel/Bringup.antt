-- ===== src/Tunnel/Bringup.antt =====
-- What the calls of `SharpTunnel` come to: the calls up to the first that fails.
use sharpvpn.Base.{
  address, Action, pure, ◌>>◌, ℕ, ◌≡◌, sym, ap, ◌∙◌, ◌++◌, List, [], ◌∷◌, Bool, true, false, Option,
  is_some, none, some, if◌then◌else◌, arith,
}
use mathlib.Core.List.{append-nil, append_assoc}
use sharpvpn.Tunnel.{
  Tunnel, Call, set_address, set_netmask, set_mtu, bring_up, set_iff, close, Kernel, Run, ifr_name,
  mask_ip, ask, configure, set_own_ip, gateway_of, set_ip, init, shutdown,
}

module _ (succeeds : Call → Bool) where
  -- The calls that are made of a list, where the first one that fails is the last.
  abbrev pub made : List Call → List Call
  made [] = []
  made (c ∷ cs) = c ∷ (if succeeds c then made cs else [])

  abbrev pub all_succeed : List Call → Bool
  all_succeed [] = true
  all_succeed (c ∷ cs) = if succeeds c then all_succeed cs else false

abbrev pub done_if : Bool → Option (Unit {0})
done_if true = some tt
done_if false = none

-- The calls that give a device its address, in order.
abbrev pub steps : Tunnel → ℕ → ℕ → List Call
steps t ip mask =
    set_address (ifr_name t) ip
    ∷ set_mtu (ifr_name t) t.mtu
    ∷ set_netmask (ifr_name t) mask
    ∷ bring_up (ifr_name t)
    ∷ []

-- Once a descriptor is attached.
abbrev attached_run : ℕ → Run → Run
attached_run fd r = record {
  tunnel = record r.tunnel { tun = fd };
  calls = r.calls ++ (set_iff fd (ifr_name r.tunnel) ∷ []);
}

module _ (k : Kernel) where
  -- One call after the other.
  abbrev asks : List Call → Action Run (Unit {0})
  asks [] = pure tt
  asks (c ∷ cs) = ask k c >> asks cs

  asks_lem :
      (cs : List Call) (r : Run)
      → asks cs r
        ≡ (done_if (all_succeed k.succeeds cs), record r { calls = r.calls ++ made k.succeeds cs })
  asks_lem [] r = ap (λ l. (some tt, record r { calls = l })) (sym (append-nil r.calls))
  asks_lem (c ∷ cs) r = ground (
    arith,
    asks_lem cs (record r { calls = r.calls ++ (c ∷ []) }),
    append_assoc r.calls (c ∷ []) (made k.succeeds cs),
  )

  module _ (mask : ℕ) (parses : k.inet_pton mask_ip ≡ address mask) where
    configure-asks : (ip : ℕ) (r : Run) → configure k ip r ≡ asks (steps r.tunnel ip mask) r
    unfolding configure
    configure-asks ip r = ground (arith, parses)

    configure_lem :
        (ip : ℕ) (r : Run)
        → configure k ip r ≡ (
          done_if (all_succeed k.succeeds (steps r.tunnel ip mask)),
          record r { calls = r.calls ++ made k.succeeds (steps r.tunnel ip mask) },
        )
    configure_lem ip r = configure-asks ip r ∙ asks_lem (steps r.tunnel ip mask) r

    -- `set_ip` asks for the address, the mtu, the netmask and the flag in this order, up to the
    -- first call that fails; it returns 0 exactly if none does, and only then sets the gateway.
    pub set_ip_lem :
        (ip : ℕ) (r : Run)
        → let calls = steps r.tunnel ip mask in
          set_ip k ip r ≡ (
            done_if (all_succeed k.succeeds calls),
            record {
              tunnel =
                  if all_succeed k.succeeds calls
                  then record r.tunnel { tunnel_gateway = k.inet_ntoa (gateway_of k ip) }
                  else r.tunnel;
              calls = r.calls ++ made k.succeeds calls;
            },
          )
    unfolding set_ip
    set_ip_lem ip r = ground (arith, configure_lem ip r)

    set_own_ip_lem :
        (ip : ℕ) (r : Run)
        → k.inet_pton r.tunnel.ip_address ≡ address ip
        → let calls = steps r.tunnel ip mask in
          set_own_ip k r ≡ (
            done_if (all_succeed k.succeeds calls),
            record {
              tunnel = record r.tunnel { tunnel_ip = k.ntohl ip };
              calls = r.calls ++ made k.succeeds calls;
            },
          )
    unfolding set_own_ip
    set_own_ip_lem ip r e = ground (
      arith,
      e,
      configure_lem ip (record r { tunnel = record r.tunnel { tunnel_ip = k.ntohl ip } }),
    )

    -- The start of a server's tunnel, where /dev/net/tun opens and the configured address and the
    -- netmask are addresses: a descriptor that cannot be attached is closed again and nothing else
    -- is asked for. Else the calls for the address, the mtu, the netmask and the flag follow, up to
    -- the first that fails; the address is kept in host order, and 0 is returned, and the tunnel
    -- noted to run, exactly if none of the calls fails.
    pub init_lem :
        (fd ip : ℕ) (r : Run)
        → k.open_tun ≡ some fd
        → k.inet_pton r.tunnel.ip_address ≡ address ip
        → let calls = steps r.tunnel ip mask in
          let attached = set_iff fd (ifr_name r.tunnel) in
          let up = all_succeed k.succeeds calls in
          init k true r ≡ (
            if k.succeeds attached
            then (
              done_if up,
              record {
                tunnel = record r.tunnel {
                  tun = fd;
                  tunnel_ip = k.ntohl ip;
                  running = if up then true else r.tunnel.running;
                };
                calls = (r.calls ++ (attached ∷ [])) ++ made k.succeeds calls;
              },
            )
            else (none, record r { calls = (r.calls ++ (attached ∷ [])) ++ (close fd ∷ []) }))
    unfolding init
    init_lem fd ip r o e = ground (arith, o, set_own_ip_lem ip (attached_run fd r) e)

  set_own_ip_keeps :
      (r : Run)
      → ((set_own_ip k r).1.tunnel.tun ≡ r.tunnel.tun)
        × ((set_own_ip k r).1.tunnel.running ≡ r.tunnel.running)
  unfolding set_own_ip configure
  set_own_ip_keeps r = ground arith

  -- After `init` on a tunnel that does not run, where /dev/net/tun opens, `shutdown` closes the
  -- descriptor if `init` returned 0, and does nothing if it did not, also where the descriptor was
  -- attached and a later call failed.
  pub shutdown-init :
      (setip : Bool) (fd : ℕ) (r : Run)
      → k.open_tun ≡ some fd
      → r.tunnel.running ≡ false
      → let (result, r') = init k setip r in
        shutdown r'
        ≡ record r' { calls = if is_some result then r'.calls ++ (close fd ∷ []) else r'.calls }
  unfolding init shutdown
  shutdown-init setip fd r o n = ground (arith, o, n, set_own_ip_keeps (attached_run fd r))
