-- ===== src/Tunnel/Tests.antt =====
-- Runs of the tunnel's code on small inputs.
use sharpvpn.Base.{address, ℕ, ◌≡◌, refl, [], ◌∷◌, Bool, true, false, Option, some, pos, arith}
use sharpvpn.Vpn.Maps.{Map}
use sharpvpn.Vpn.Addresses.{get_useable_ip}
use sharpvpn.Tunnel.{
  configure, set_own_ip, shutdown, new_tunnel, Call, set_address, set_netmask, set_mtu, bring_up,
  set_iff, close, Kernel, Run, set_ip, init,
}
use sharpvpn.Tunnel.Addresses.{host_order}
use sharpvpn.Tunnel.Addresses.Tests.{swap, swap-LittleEndian}
use sharpvpn.Tunnel.Gateway.{set_ip-get_useable_ip}

-- The call for the mtu fails.
abbrev without_mtu : Call → Bool
without_mtu (set_mtu name mtu) = false
without_mtu (set_address name ip) = true
without_mtu (set_netmask name mask) = true
without_mtu (bring_up name) = true
without_mtu (set_iff fd name) = true
without_mtu (close fd) = true

abbrev kernel_of : (Call → Bool) → Kernel
kernel_of succeeds = record {
  open_tun = some 3;
  succeeds = succeeds;
  inet_pton = λ s. address 16777215;
  inet_ntoa = λ x. x ∷ [];
  htonl = swap;
  ntohl = swap;
}

abbrev kernel : Kernel
kernel = kernel_of (λ c. true)

abbrev start : Run
start = record { tunnel = new_tunnel 0 0 (b't' ∷ []) (b'i' ∷ []) (pos 1400); calls = [] }

abbrev failed : Option (Unit {0}) × Run
failed = init (kernel_of without_mtu) true start

-- The descriptor stays open.
stays_open : (shutdown failed.1).calls ≡ failed.1.calls
unfolding init set_own_ip configure shutdown
stays_open = refl

abbrev no_clients : Map ℕ
no_clients = []

set_ip-get_useable_ip_example :
    (set_ip kernel
      (get_useable_ip swap (host_order 10 7 0 1) no_clients)
      start).1.tunnel.tunnel_gateway
    ≡ swap (host_order 10 7 0 1) ∷ []
set_ip-get_useable_ip_example =
    set_ip-get_useable_ip kernel swap-LittleEndian 10 7 0 16777215 no_clients start (omega arith)
      (omega arith) (omega arith) (omega arith) refl refl
