-- ===== src/Socket/Receiver/Skips.antt =====
-- Packages that the receiver drops or keeps though it should not.
use sharpvpn.Base.{ℕ, suc, ◌^◌, ◌≤◌, ◌<◌, ◌≡◌, ◌≢◌, false, some, arith}
use sharpvpn.NetStruct.PackageMap
use sharpvpn.NetStruct.PackageMap.Laws.{find-erase}
use sharpvpn.Package.{DataPackage, AckPackage}
use sharpvpn.Socket.Receiver.{
  handle_data, handle_ack, store_data, raise_recv_ack_id, raise_send_ack_id, has_arrived,
  take_package, after_take, through_int,
}
use sharpvpn.Socket.Receiver.Arrivals.Steps.{handle_ack_frame}
use sharpvpn.Socket.Receiver.Take.{take-found}
use sharpvpn.Socket.State.{Socket}

-- An `Ack` package gives up the ids below its `send_from`; but the package of `send_from` itself,
-- if it arrives later for the first time, is dropped too.
pub handle_data-handle_ack_skips :
    (s : Socket) (a : AckPackage) (d : DataPackage)
    → d.package_id ≡ a.send_from
    → has_arrived s d.package_id ≡ false
    → has_arrived (handle_data (handle_ack s a) d) d.package_id ≡ false
handle_data-handle_ack_skips s a d e n =
    let frame = handle_ack_frame s a in
    unfold handle_data raise_send_ack_id raise_recv_ack_id store_data in ground (arith, frame, e, n)

through_int_wraps : (id : ℕ) → 2 ^ 31 ≤ id → id < 2 ^ 63 → through_int id ≢ id
unfolding through_int
through_int_wraps id h b e = ground (arith, e, h, b)

-- A package with an id from 2 ^ 31 up to below 2 ^ 63 that was handed on is not erased: the `int` that
-- holds the id loses it. The package stays in the table.
pub take_package_keeps :
    (fuel : ℕ) (s : Socket) (d : DataPackage)
    → PackageMap.find s.recv_pool s.recv_id ≡ some d
    → 2 ^ 31 ≤ s.recv_id
    → s.recv_id < 2 ^ 63
    → PackageMap.find (after_take s (take_package (suc fuel) s)).recv_pool s.recv_id ≡ some d
take_package_keeps fuel s d e h b = rw (take-found fuel s d e) (
    ground (
      arith,
      e,
      find-erase s.recv_pool (through_int s.recv_id) s.recv_id (λ z. omega (arith, z, h)),
      through_int_wraps s.recv_id h b,
    ))
