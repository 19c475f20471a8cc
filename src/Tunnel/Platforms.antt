-- ===== src/Tunnel/Platforms.antt =====
-- The gateway that src/SharpTunnel.cpp computes from an address, on macOS and on Windows.
mod Tests
use sharpvpn.Base.{
  Str, address, ℕ, ◌+◌, ◌-◌, ◌%◌, ◌^◌, ◌<◌, ◌≡◌, refl, sym, ap, ◌∙◌, List, [], ◌∷◌, ◌++◌, true,
  some, arith,
}
use mathlib.Core.List.{append_assoc}
use sharpvpn.Tunnel.Addresses.{host_order, IsByte, LittleEndian, next_lem}
use sharpvpn.Tunnel.Mac
use sharpvpn.Tunnel.Mac.{plain_socket, command, ifconfig}
use sharpvpn.Tunnel.Windows
use sharpvpn.Tunnel.Windows.{config_tun, added}
use sharpvpn.Tunnel.Windows.Masks.{bit_and_low}

-- The gateway of the configured address on macOS.
own_gate_lem :
    (k : Mac.Kernel) (a b c d : ℕ)
    → LittleEndian k.htonl k.ntohl
    → IsByte a
    → IsByte b
    → IsByte c
    → IsByte d
    → Mac.own_gate k (k.ntohl (k.htonl (host_order a b c d))) ≡ k.htonl (host_order a b c 1)
own_gate_lem k a b c d e ha hb hc hd =
    ap (Mac.own_gate k) (e.ntohl-htonl (host_order a b c d) (omega (arith, ha, hb, hc, hd)))
    ∙ ap k.htonl (omega (arith, hd))

set_own_ip_lem :
    (k : Mac.Kernel) (ip : ℕ) (r : Mac.Run)
    → k.inet_pton r.tunnel.ip_address ≡ address ip
    → (Mac.set_own_ip k r).1.calls
      ≡ r.calls
        ++ (plain_socket
            ∷ command (
                ifconfig k r.tunnel r.tunnel.ip_address (k.inet_ntoa (Mac.own_gate k (k.ntohl ip))))
            ∷ [])
unfolding Mac.set_own_ip ifconfig
set_own_ip_lem k ip r e = rw e (
    append_assoc r.calls (plain_socket ∷ []) (
      command (ifconfig k r.tunnel r.tunnel.ip_address (k.inet_ntoa (Mac.own_gate k (k.ntohl ip))))
      ∷ []))

-- On Windows.
windows_gate_lem :
    (k : Windows.Kernel) (a b c d : ℕ)
    → LittleEndian k.htonl k.ntohl
    → IsByte a
    → IsByte b
    → IsByte c
    → IsByte d
    → Windows.gate_of k (k.htonl (host_order a b c d)) (2 ^ 24 - 1) ≡ k.htonl (host_order a b c 1)
windows_gate_lem k a b c d e ha hb hc hd =
    ap (λ x. k.htonl ((k.ntohl x + 1) % 2 ^ 32))
      (bit_and_low 32 24 (k.htonl (host_order a b c d)) (omega arith))
    ∙ next_lem k.htonl k.ntohl e a b c d ha hb hc hd

assign_lem :
    (k : Windows.Kernel) (ip mask context : ℕ) (gate : Str) (r : Windows.Run)
    → k.succeeds (config_tun r.tunnel.tun ip (Windows.bit_and 32 ip mask) mask) ≡ true
    → k.add_ip ip mask r.tunnel.if_index ≡ added context
    → k.inet_ntop (Windows.gate_of k ip mask) ≡ some gate
    → (Windows.assign k ip mask r).1.tunnel
      ≡ record r.tunnel { nte_context = context; tunnel_gateway = gate }
unfolding Windows.assign
assign_lem k ip mask context gate r s a g = ground (arith, s, a, g)

-- On machines that keep the lowest byte first, for the address a.b.c.d: on macOS `set_ip` for it, and
-- on Windows `set_ip` for it where the netmask is 255.255.255.0 and the calls succeed, leave a.b.c.1
-- as the gateway; and on macOS `set_ip()`, where it is the configured address, runs the one command
-- that gives the device this address and this gateway.
pub gateways_lem :
    (km : Mac.Kernel) (kw : Windows.Kernel) (a b c d memory context : ℕ) (gate : Str) (rm : Mac.Run)
    (rw : Windows.Run)
    → LittleEndian km.htonl km.ntohl
    → LittleEndian kw.htonl kw.ntohl
    → IsByte a
    → IsByte b
    → IsByte c
    → IsByte d
    → km.inet_pton rm.tunnel.ip_address ≡ address (km.htonl (host_order a b c d))
    → kw.inet_pton Windows.mask_ip ≡ address (2 ^ 24 - 1)
    → (let ip = kw.htonl (host_order a b c d) in
        kw.succeeds (config_tun rw.tunnel.tun ip (Windows.bit_and 32 ip (2 ^ 24 - 1)) (2 ^ 24 - 1))
        ≡ true)
    → kw.add_ip (kw.htonl (host_order a b c d)) (2 ^ 24 - 1) rw.tunnel.if_index ≡ added context
    → kw.inet_ntop (kw.htonl (host_order a b c 1)) ≡ some gate
    → ((Mac.set_ip km (km.htonl (host_order a b c d)) rm).1.tunnel.tunnel_gateway
        ≡ km.inet_ntoa (km.htonl (host_order a b c 1)))
      × ((Mac.set_own_ip km rm).1.calls
          ≡ rm.calls
            ++ (plain_socket
                ∷ command (
                    ifconfig km rm.tunnel rm.tunnel.ip_address
                      (km.inet_ntoa (km.htonl (host_order a b c 1))))
                ∷ []))
      × ((Windows.set_ip kw memory (kw.htonl (host_order a b c d)) rw).1.tunnel.tunnel_gateway
          ≡ gate)
unfolding Mac.set_ip Windows.set_ip
gateways_lem km kw a b c d memory context gate rm rw em ew ha hb hc hd own mask s add name = (
  ap km.inet_ntoa (next_lem km.htonl km.ntohl em a b c d ha hb hc hd),
  set_own_ip_lem km (km.htonl (host_order a b c d)) rm own
      ∙ ap
          (λ g.
            rm.calls
            ++ (plain_socket
                ∷ command (ifconfig km rm.tunnel rm.tunnel.ip_address (km.inet_ntoa g))
                ∷ []))
          (own_gate_lem km a b c d em ha hb hc hd),
  ground (
    arith,
    mask,
    ap (λ t. t.tunnel_gateway)
        (assign_lem kw (kw.htonl (host_order a b c d)) (2 ^ 24 - 1) context gate rw s add
          (ap kw.inet_ntop (windows_gate_lem kw a b c d ew ha hb hc hd) ∙ name)),
  ),
)
