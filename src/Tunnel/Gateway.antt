-- ===== src/Tunnel/Gateway.antt =====
-- The gateway that a client computes from the address it was given, next to `get_useable_ip` of
-- src/SharpVpn.cpp, which gave it out.
use sharpvpn.Base.{address, ℕ, ◌+◌, ◌<◌, ◌≡◌, ap, ◌∙◌, true, length, arith}
use sharpvpn.Vpn.Maps.{Map}
use sharpvpn.Vpn.Addresses.{get_useable_ip, get_useable_ip_lem}
use sharpvpn.Tunnel.Addresses.{host_order, IsByte, LittleEndian, next_lem}
use sharpvpn.Tunnel.{Kernel, Run, mask_ip, gateway_of, set_ip}
use sharpvpn.Tunnel.Bringup.{steps, all_succeed, set_ip_lem}

module _ (k : Kernel) (e : LittleEndian k.htonl k.ntohl) where
  -- On a machine that keeps the lowest byte first, where the server's own address ends in .1, fewer
  -- than 199 addresses are in use, the netmask is an address and the client's calls succeed, the
  -- gateway that the client takes from the address it was given is the server's own address.
  pub set_ip-get_useable_ip :
      (a b c mask : ℕ) (ip_map : Map ℕ) (r : Run)
      → IsByte a
      → IsByte b
      → IsByte c
      → length ip_map < 199
      → k.inet_pton mask_ip ≡ address mask
      → let server = host_order a b c 1 in
        let ip = get_useable_ip k.htonl server ip_map in
        all_succeed k.succeeds (steps r.tunnel ip mask) ≡ true
        → (set_ip k ip r).1.tunnel.tunnel_gateway ≡ k.inet_ntoa (k.htonl server)
  set_ip-get_useable_ip a b c mask ip_map r ha hb hc l p s =
      let server = host_order a b c 1 in
      let ip = get_useable_ip k.htonl server ip_map in
      let (j, lo, hi, q, free) =
        get_useable_ip_lem k.htonl server ip_map
          (λ x y lt b q.
            omega
              (arith, lt, e.ntohl-htonl x (omega (arith, lt, b)), e.ntohl-htonl y b, ap k.ntohl q))
          (omega (arith, ha, hb, hc)) l in
      ground (arith, set_ip_lem k mask p ip r, s)
      ∙ ap (λ x. k.inet_ntoa (gateway_of k x)) (q ∙ ap k.htonl (last a b c j))
      ∙ ap k.inet_ntoa (next_lem k.htonl k.ntohl e a b c (1 + j) ha hb hc (omega (arith, hi)))
    where
      last : (a b c j : ℕ) → host_order a b c 1 + j ≡ host_order a b c (1 + j)
      last a b c j = omega arith
