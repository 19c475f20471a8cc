-- ===== src/Tunnel/Mac/Tests.antt =====
-- Runs of the code on small inputs.
use sharpvpn.Base.{
  Str, address, ℕ, ◌+◌, ◌≡◌, refl, List, [], ◌∷◌, ℤ, pos, negsuc, true, false, some, length, take,
}
use sharpvpn.Tunnel.{new_tunnel}
use sharpvpn.Tunnel.Addresses.Tests.{swap}
use sharpvpn.Tunnel.Mac.{
  Kernel, Run, opened, get_info, connect, close, init, shutdown, attach, bytes, read, write,
  frame_of,
}
use sharpvpn.Tunnel.Mac.Ends.{closes}

abbrev print_unsigned : ℤ → Str
print_unsigned (pos n) = n ∷ []
print_unsigned (negsuc n) = []

-- The control does not answer.
abbrev pub kernel : Kernel
kernel = record {
  unit_of = λ name. some (pos 2);
  name_fits = true;
  control_socket = some 5;
  control_id = λ fd. some 9;
  connects = λ fd id unit. false;
  inet_pton = λ s. address (swap 168230919);
  inet_ntoa = λ ip. ip ∷ [];
  htonl = swap;
  ntohl = swap;
  print = print_unsigned;
  af_inet = 2;
  af_inet6 = 30;
}

abbrev pub start : Run
start = record { tunnel = new_tunnel 0 0 (b'u' ∷ []) (b'i' ∷ []) (pos 1400); calls = [] }

init_refused :
    (init kernel true start).1.calls ≡ opened 5 ∷ get_info 5 ∷ connect 5 9 (pos 3) ∷ close 5 ∷ []
unfolding init attach
init_refused = refl

abbrev message : List ℕ
message = 69 ∷ 0 ∷ 7 ∷ []

frame_of_v4 : frame_of kernel message ≡ 0 ∷ 0 ∷ 0 ∷ 2 ∷ 69 ∷ 0 ∷ 7 ∷ []
frame_of_v4 = refl

-- A buffer of two bytes for a package of three.
read_two : read (bytes (take (4 + 2) (frame_of kernel message))) ≡ (pos 2, 69 ∷ 0 ∷ [])
unfolding read
read_two = refl

write_three : write (pos (length (frame_of kernel message))) ≡ pos 3
unfolding write
write_three = refl

closed_once : closes (shutdown (init kernel true start).1).calls ≡ 5 ∷ []
unfolding init attach shutdown
closed_once = refl
