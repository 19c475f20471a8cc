-- ===== src/Socket/Dispatch/Histories.antt =====
-- What the receiver's loop does to the shared tables is a history of Socket.Receiver.
use sharpvpn.Base.{
  ℕ, ◌+◌, ◌≡◌, refl, ap, ◌∙◌, List, [], ◌∷◌, Bool, true, false, if◌then◌else◌, arith,
}
use sharpvpn.Package.{DataPackage, AckPackage, PingPackage}
use sharpvpn.Socket.State.{Socket}
use sharpvpn.Socket.Receiver.{
  store_data, raise_recv_ack_id, raise_send_ack_id, fast_resend, handle_data, handle_ack, Event,
  data_arrives, ack_arrives, handle, run,
}
use sharpvpn.Socket.Dispatch.{
  Endpoint, Input, exit_message, timeout, error, ping, data_package, ack, close, unknown,
  stop_worker, receive, receive_all,
}

-- The events of the inputs up to the end: of the connection, or, for a client, by a byte on the
-- local socket.
abbrev pub events : Bool → List (ℕ × Input) → List Event
events client [] = []
events client ((now, exit_message) ∷ inputs) = if client then [] else events client inputs
events client ((now, timeout) ∷ inputs) = events client inputs
events client ((now, error) ∷ inputs) = events client inputs
events client ((now, ping p) ∷ inputs) = events client inputs
events client ((now, data_package d) ∷ inputs) = data_arrives d ∷ events client inputs
events client ((now, ack a) ∷ inputs) = ack_arrives a ∷ events client inputs
events client ((now, close) ∷ inputs) = []
events client ((now, unknown) ∷ inputs) = events client inputs

-- Whether the connection is closed by the other end before that.
abbrev pub closes_in : Bool → List (ℕ × Input) → Bool
closes_in client [] = false
closes_in client ((now, exit_message) ∷ inputs) = if client then false else closes_in client inputs
closes_in client ((now, timeout) ∷ inputs) = closes_in client inputs
closes_in client ((now, error) ∷ inputs) = closes_in client inputs
closes_in client ((now, ping p) ∷ inputs) = closes_in client inputs
closes_in client ((now, data_package d) ∷ inputs) = closes_in client inputs
closes_in client ((now, ack a) ∷ inputs) = closes_in client inputs
closes_in client ((now, close) ∷ inputs) = true
closes_in client ((now, unknown) ∷ inputs) = closes_in client inputs

handle_data-running :
    (s : Socket) (d : DataPackage) → (handle_data s d).worker_running ≡ s.worker_running
unfolding handle_data store_data raise_recv_ack_id raise_send_ack_id
handle_data-running s d = ground arith

fast_resend-running : (s : Socket) (m : ℕ) → (fast_resend s m).worker_running ≡ s.worker_running
unfolding fast_resend
fast_resend-running s m = ground arith

handle_ack-running :
    (s : Socket) (a : AckPackage) → (handle_ack s a).worker_running ≡ s.worker_running
unfolding handle_ack raise_send_ack_id
handle_ack-running s a = fast_resend-running _ _

answer_keeps :
    (client : Bool) (now : ℕ) (p : PingPackage) (e : Endpoint)
    → let e' = (receive client now (ping p) e).1 in (e'.socket ≡ e.socket) × (e'.closes ≡ e.closes)
unfolding receive
answer_keeps client now p e = ground arith

-- After the end nothing changes any more.
receive_all_stopped :
    (client : Bool) (inputs : List (ℕ × Input)) (e : Endpoint)
    → e.socket.worker_running ≡ false
    → receive_all client inputs e ≡ e
unfolding receive_all
receive_all_stopped client [] e h = refl
receive_all_stopped client ((now, i) ∷ inputs) e h = ground (arith, h)

-- The loop leaves a socket that runs as the history of its data and acknowledgements does, up to
-- the end of the connection, and stopped if the other end closed it; pings, timeouts and unknown
-- packages leave no trace in it. The descriptor is closed once if the other end closed the
-- connection, and else not.
pub receive_all-run :
    (client : Bool) (inputs : List (ℕ × Input)) (e : Endpoint)
    → e.socket.worker_running ≡ true
    → let after = run e.socket (events client inputs) in
      let closed = closes_in client inputs in
      ((receive_all client inputs e).socket ≡ (if closed then stop_worker after else after))
      × ((receive_all client inputs e).closes ≡ (if closed then e.closes + 1 else e.closes))
unfolding receive_all receive run handle
receive_all-run client [] e h = (refl, refl)
receive_all-run client ((now, exit_message) ∷ inputs) e h =
    ground (arith, h, receive_all-run client inputs e h)
receive_all-run client ((now, timeout) ∷ inputs) e h =
    ground (arith, h, receive_all-run client inputs e h)
receive_all-run client ((now, error) ∷ inputs) e h =
    ground (arith, h, receive_all-run client inputs e h)
receive_all-run client ((now, unknown) ∷ inputs) e h =
    ground (arith, h, receive_all-run client inputs e h)
receive_all-run client ((now, close) ∷ inputs) e h =
    rw h (rw (receive_all_stopped client inputs (receive client now close e).1 refl) (refl, refl))
receive_all-run client ((now, ping p) ∷ inputs) e h =
    let e' = (receive client now (ping p) e).1 in
    let (same_socket, same_closes) = answer_keeps client now p e in
    ground (
      arith,
      h,
      same_socket,
      same_closes,
      receive_all-run client inputs e' (ap (λ s. s.worker_running) same_socket ∙ h),
    )
receive_all-run client ((now, data_package d) ∷ inputs) e h =
    let e' = (receive client now (data_package d) e).1 in
    ground (arith, h, receive_all-run client inputs e' (handle_data-running e.socket d ∙ h))
receive_all-run client ((now, ack a) ∷ inputs) e h =
    let e' = (receive client now (ack a) e).1 in
    ground (arith, h, receive_all-run client inputs e' (handle_ack-running e.socket a ∙ h))
