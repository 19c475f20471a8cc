-- ===== src/Tunnel/Windows/Ends.antt =====
-- What becomes of the handle of the device.
use sharpvpn.Base.{ℕ, ◌≡◌, List, [], ◌∷◌, true, false, keep, arith}
use sharpvpn.Tunnel.Windows.{
  Call, opened, set_media, config_tun, add_address, delete_address, command, close, Kernel, Run,
  init, open_tap, start_device, shutdown,
}

-- The handles that were given, and those that were closed.
abbrev pub opens : List Call → List ℕ
opens [] = []
opens (opened h ∷ calls) = h ∷ opens calls
opens (set_media h on ∷ calls) = opens calls
opens (config_tun h ip net mask ∷ calls) = opens calls
opens (add_address ip mask i ∷ calls) = opens calls
opens (delete_address c ∷ calls) = opens calls
opens (command s ∷ calls) = opens calls
opens (close h ∷ calls) = opens calls

abbrev pub closes : List Call → List ℕ
closes [] = []
closes (opened h ∷ calls) = closes calls
closes (set_media h on ∷ calls) = closes calls
closes (config_tun h ip net mask ∷ calls) = closes calls
closes (add_address ip mask i ∷ calls) = closes calls
closes (delete_address c ∷ calls) = closes calls
closes (command s ∷ calls) = closes calls
closes (close h ∷ calls) = h ∷ closes calls

-- After `init` of a tunnel that does not run, and `shutdown`: the handles that were opened have each
-- been closed once, except one whose media status could not be set, which stays open; and a second
-- `shutdown` changes nothing.
pub closes-shutdown :
    (k : Kernel) (r : Run)
    → r.tunnel.running ≡ false
    → r.calls ≡ []
    → (closes (shutdown (init k r).1).calls
        ≡ keep (λ h. k.succeeds (set_media h true)) (opens (shutdown (init k r).1).calls))
      × (shutdown (shutdown (init k r).1) ≡ shutdown (init k r).1)
unfolding init open_tap start_device shutdown
closes-shutdown k r h e = (ground (arith, h, e), ground (arith, h, e))
