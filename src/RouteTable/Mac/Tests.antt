-- ===== src/RouteTable/Mac/Tests.antt =====
-- An answer with a destination and a gateway, and a row that is deleted.
use sharpvpn.Base.{Str, Pton, address, ℕ, ◌≡◌, refl, [], ◌∷◌, true, pos, copy}
use sharpvpn.RouteTable.{RouteRow, new_row}
use sharpvpn.RouteTable.Netmask.{sharp_mask, mask_bits}
use sharpvpn.RouteTable.Mac.{
  Memory, Platform, deletes, left_over, open_socket, close_socket, send, returned, mask_of,
  change_row, del_route_row, walk, get_default_route, err_interface,
}

abbrev answer : ℕ → ℕ
answer =
    copy (λ i. 0) 0
      (16 ∷ 2 ∷ 0 ∷ 0 ∷ 0 ∷ 0 ∷ 0 ∷ 0 ∷ 0 ∷ 0 ∷ 0 ∷ 0 ∷ 0 ∷ 0 ∷ 0 ∷ 0 ∷ 16 ∷ 2 ∷ 0 ∷ 0 ∷ 10 ∷ 0 ∷ 0
        ∷ 1 ∷ [])

abbrev platform : Platform
platform = record { rtax_max = 8; rtax_gateway = 1; rtax_ifp = 4; inet_ntoa = λ ip. ip ∷ [] }

-- The gateway is found behind the destination; there is no interface.
gateway_found :
    get_default_route platform 20 answer 3
    ≡ record new_row { gateway = 16777226 ∷ []; dst = err_interface }
unfolding get_default_route walk
gateway_found = refl

abbrev row : RouteRow
row = record new_row { netmask_sharp = pos 8 }

abbrev memory : Memory
memory = record { flags = 1; dst = 2; gateway = 3; netmask = 4 }

abbrev ten : Str → Pton
ten s = address 10

deleted : del_route_row ten (λ n. n) memory row ≡ (
  returned true,
  open_socket
      ∷ send (record {
        change = deletes;
        flags = left_over 1;
        seq = 9998;
        dst = 10;
        gateway = 10;
        netmask = 4278190080;
      })
      ∷ close_socket
      ∷ [],
)
unfolding change_row mask_of sharp_mask mask_bits
deleted = refl
