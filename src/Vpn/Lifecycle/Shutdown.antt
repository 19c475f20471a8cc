-- ===== src/Vpn/Lifecycle/Shutdown.antt =====
-- What a client's `run` and `stop` of src/SharpVpn.cpp do to the kernel's routing table.
use sharpvpn.Base.{Str, List, ◌++◌, false}
use sharpvpn.Vpn.Lifecycle.{Vpn}
use sharpvpn.Tunnel
use sharpvpn.RouteTable.{System, Request, add_route_row}
use sharpvpn.RouteTable.Chnroute.{half_row, zero_ip, half_ip}

-- The two routes of a tunnel, each for one half of all addresses, through a gateway and a device.
abbrev pub halves : System → Str → Str → List Request
halves sys dev gateway =
    (add_route_row sys (half_row zero_ip gateway dev) false).1
    ++ (add_route_row sys (half_row half_ip gateway dev) false).1
