-- ===== src/Tunnel/Platforms/Tests.antt =====
-- The gateway of 10.7.0.7.
use sharpvpn.Base.{◌≡◌, refl, [], ◌∷◌, arith}
use sharpvpn.Tunnel.Addresses.{host_order}
use sharpvpn.Tunnel.Addresses.Tests.{swap, swap-LittleEndian}
use sharpvpn.Tunnel.Mac
use sharpvpn.Tunnel.Mac.{plain_socket, command, ifconfig}
use sharpvpn.Tunnel.Windows
use sharpvpn.Tunnel.Platforms.{gateways_lem}

gateways_lem_example :
    ((Mac.set_ip Mac.Tests.kernel
        (swap (host_order 10 7 0 7))
        Mac.Tests.start).1.tunnel.tunnel_gateway
      ≡ swap (host_order 10 7 0 1) ∷ [])
    × ((Mac.set_own_ip Mac.Tests.kernel Mac.Tests.start).1.calls
        ≡ plain_socket
          ∷ command (
              ifconfig Mac.Tests.kernel Mac.Tests.start.tunnel
                (b'i' ∷ [])
                (swap (host_order 10 7 0 1) ∷ []))
          ∷ [])
    × ((Windows.set_ip Windows.Tests.kernel 0
          (swap (host_order 10 7 0 7))
          Windows.Tests.start).1.tunnel.tunnel_gateway
        ≡ swap (host_order 10 7 0 1) ∷ [])
gateways_lem_example =
    gateways_lem Mac.Tests.kernel Windows.Tests.kernel 10 7 0 7 0 1 _ Mac.Tests.start
      Windows.Tests.start swap-LittleEndian swap-LittleEndian (omega arith) (omega arith)
      (omega arith) (omega arith) refl refl refl refl refl
