-- ===== src/RouteTable/Windows/Tests.antt =====
-- The routes of two lines, set and deleted on Windows.
use sharpvpn.Base.{◌≡◌, refl, ◌++◌, [], ◌∷◌, map, true, some, All, arith}
use sharpvpn.RouteTable.Netmask.{high_bits, sharp_mask_lem}
use sharpvpn.RouteTable.Tests.{
  strtol, two_lines, two_lines-IsLine, memory, memory-IsClean, digit, files,
}
use sharpvpn.RouteTable.Windows.{
  IpRow, Kernel, Memory, Run, returned, create, delete, command, set_default_as_tunnel,
}
use sharpvpn.RouteTable.Windows.Chnroute.{set_chnroute, delete_chnroute, dns_back}
use sharpvpn.RouteTable.Windows.Entries.{Parsed, entries}
use sharpvpn.RouteTable.Windows.Restore.{delete_chnroute_lem}

abbrev home : IpRow
home = record { dest = 0; mask = 0; next_hop = 1; if_index = 7; metric = 25 }

abbrev kernel : Kernel
kernel = record {
  inet_pton = digit;
  htonl = λ n. n;
  routes = some (home ∷ []);
  succeeds = λ q. true;
  print = λ n. n ∷ [];
}

abbrev unset : Memory
unset = record { dst = 0; gateway = 0; netmask = 0; row = home }

-- After `init_table`.
abbrev begun : Run
begun = record {
  table = record {
    default_route_row = some home;
    default_origin_backup = home;
    tunnel_route = home;
    modified = true;
  };
  requests = [];
}

two_lines-Parsed : All (Parsed kernel unset strtol) two_lines
two_lines-Parsed = (
  (8, 24, _, refl, refl, sharp_mask_lem 24 (omega arith)),
  ((9, 8, _, refl, refl, sharp_mask_lem 8 (omega arith)), tt),
)

abbrev after_set : Run
after_set = (set_chnroute kernel unset strtol files memory (b'f' ∷ []) (b'5' ∷ []) begun).1

abbrev with_tunnel : Run
with_tunnel = (set_default_as_tunnel kernel unset 12 (b'6' ∷ []) after_set).1

delete_chnroute_lem_example :
    ((set_chnroute kernel unset strtol files memory (b'f' ∷ []) (b'5' ∷ []) begun).0
      ≡ returned true)
    × (after_set.requests
        ≡ (create (record home { dest = 5; mask = high_bits 32 0 }) ∷ [])
          ++ map create (entries kernel unset strtol home two_lines two_lines-Parsed))
    × ((delete_chnroute kernel unset strtol files memory (b'f' ∷ []) with_tunnel).0 ≡ returned true)
    × ((delete_chnroute kernel unset strtol files memory (b'f' ∷ []) with_tunnel).1.requests
        ≡ (((with_tunnel.requests ++ (delete with_tunnel.table.tunnel_route ∷ []))
              ++ (create home ∷ []))
            ++ map delete (entries kernel unset strtol home two_lines two_lines-Parsed))
          ++ (command (dns_back kernel begun.table) ∷ []))
delete_chnroute_lem_example =
    delete_chnroute_lem kernel kernel unset unset strtol files memory memory (b'f') [] (b'5' ∷ [])
      (b'6' ∷ []) 5 _ _ 12 two_lines home begun two_lines-Parsed refl two_lines-IsLine
      memory-IsClean memory-IsClean refl refl refl refl
