-- ===== src/Socket/Sender/GiveUp.antt =====
-- A package that the sender gives up, through to the receiver at the other end.
use sharpvpn.Base.{ℕ, ◌+◌, ◌^◌, ◌<◌, ◌≡◌, false, some, arith}
use native.Mathlib.Nat.{mod-eq_of_lt}
use sharpvpn.Package.{DataPackage, AckPackage}
use sharpvpn.Socket.Receiver.{handle_data, handle_ack, has_arrived}
use sharpvpn.Socket.Receiver.Skips.{handle_data-handle_ack_skips}
use sharpvpn.Socket.Sender.{Sender, handle_waiting, raise_send_from, erase_package}
use sharpvpn.Socket.State.{Socket}

-- Giving up a package above `send_from` moves `send_from` behind it.
given_up_from :
    (now address : ℕ) (s t : Sender)
    → 20 < (s.packages address).send_count
    → s.socket.send_from < (s.packages address).package_id
    → (s.packages address).package_id + 1 < 2 ^ 64
    → handle_waiting now address s ≡ some t
    → t.socket.send_from ≡ (s.packages address).package_id + 1
unfolding handle_waiting raise_send_from erase_package
given_up_from now address s t c f b e =
    ground
      (arith, c, f, b, e, mod-eq_of_lt {n = (s.packages address).package_id + 1} {m = 2 ^ 64} b)

-- When the ack handler gives up a package whose id is above `send_from` and below 2 ^ 64 - 1, an
-- `Ack` package with the new `send_from` makes the other end drop the next package as well, if it
-- did not arrive before: it is not in the table there after it has arrived.
pub handle_waiting_skips_next :
    (now address : ℕ) (s t : Sender) (peer : Socket) (a : AckPackage) (d : DataPackage)
    → 20 < (s.packages address).send_count
    → s.socket.send_from < (s.packages address).package_id
    → (s.packages address).package_id + 1 < 2 ^ 64
    → handle_waiting now address s ≡ some t
    → a.send_from ≡ t.socket.send_from
    → d.package_id ≡ (s.packages address).package_id + 1
    → has_arrived peer d.package_id ≡ false
    → has_arrived (handle_data (handle_ack peer a) d) d.package_id ≡ false
handle_waiting_skips_next now address s t peer a d c f b e af di n =
    handle_data-handle_ack_skips peer a d
      (omega (arith, di, af, given_up_from now address s t c f b e)) n
