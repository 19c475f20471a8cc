-- ===== src/Tunnel/Windows/Tests.antt =====
-- Runs of the code on small inputs.
use sharpvpn.Base.{
  Str, address, ◌^◌, ◌-◌, ◌≡◌, refl, [], ◌∷◌, ℤ, pos, negsuc, Bool, true, false, some, keep,
}
use sharpvpn.Tunnel.Addresses.Tests.{swap}
use sharpvpn.Tunnel.Windows.{
  Call, opened, set_media, config_tun, add_address, delete_address, command, close, added, Kernel,
  Run, init, shutdown, tap_description,
}
use sharpvpn.Tunnel.Windows.Ends.{opens, closes, closes-shutdown}

-- The media status cannot be set.
abbrev without_media : Call → Bool
without_media (opened h) = true
without_media (set_media h on) = false
without_media (config_tun h ip net mask) = true
without_media (add_address ip mask i) = true
without_media (delete_address c) = true
without_media (command s) = true
without_media (close h) = true

abbrev print_unsigned : ℤ → Str
print_unsigned (pos n) = n ∷ []
print_unsigned (negsuc n) = []

abbrev pub kernel : Kernel
kernel = record {
  adapters = some (record { description = tap_description; if_index = 7; adapter_name = [] } ∷ []);
  open_device = λ name. some 4;
  succeeds = without_media;
  add_ip = λ ip mask i. added 1;
  inet_pton = λ s. address (2 ^ 24 - 1);
  inet_ntop = λ ip. some (ip ∷ []);
  htonl = swap;
  ntohl = swap;
  print = λ n. n ∷ [];
  print_int = print_unsigned;
}

abbrev pub start : Run
start = record {
  tunnel = record {
    tun = 0;
    running = false;
    mtu = pos 1400;
    if_index = 0;
    nte_context = 0;
    tunnel_gateway = [];
  };
  calls = [];
}

closes-shutdown_example :
    (closes (shutdown (init kernel start).1).calls
      ≡ keep
          (λ h. kernel.succeeds (set_media h true))
          (opens (shutdown (init kernel start).1).calls))
    × (shutdown (shutdown (init kernel start).1) ≡ shutdown (init kernel start).1)
closes-shutdown_example = closes-shutdown kernel start refl refl
