-- ===== src/Socket/Sender/Timeouts.antt =====
-- How the ack handler settles a package.
use sharpvpn.Base.{ℕ, suc, ◌+◌, ◌≤◌, ◌≡◌, Bool, ltb, leb, max, ◌||◌, some, arith, if◌then◌else◌}
use sharpvpn.Socket.Receiver.{is_acked}
use sharpvpn.Socket.Sender.{
  Sender, Outgoing, look, handle_waiting, settle_waiting, erase_package, resend_package,
  raise_send_from,
}

-- Too often sent, and acknowledged.
abbrev pub is_given_up : Outgoing → Bool
is_given_up p = ltb 20 p.send_count

abbrev pub is_acknowledged : Sender → Outgoing → Bool
is_acknowledged s p =
    leb p.package_id s.socket.send_ack_id || is_acked s.socket.ack_recv_pool p.package_id

-- The time at which the package is settled, and the state after it.
abbrev pub settle_time : ℕ → Sender → Outgoing → ℕ
settle_time now s p =
    if is_given_up p || is_acknowledged s p then now else max now (p.send_time + s.rto)

abbrev pub settled : Sender → Outgoing → Sender
settled s p = record s {
  socket =
      if is_given_up p
      then raise_send_from p.package_id (erase_package p.package_id s.socket)
      else (if is_acknowledged s p
          then erase_package p.package_id s.socket
          else resend_package p.package_id s.socket);
}

-- Where the time of sending is not ahead of the clock, two rounds settle a package, if nothing
-- else happens meanwhile, and the state then is this: a package sent more than 20 times is given
-- up, whether or not it arrived; else an acknowledged one is let go of, at once, and one that is
-- not is sent again, as soon as its timeout has passed and no earlier.
pub settle_waiting_lem :
    (fuel now address : ℕ) (s : Sender)
    → (s.packages address).send_time ≤ now
    → let p = s.packages address in
      settle_waiting (suc (suc fuel)) now address s ≡ some (settle_time now s p, settled s p)
unfolding settle_waiting handle_waiting look
settle_waiting_lem fuel now address s h = ground (arith, h)
