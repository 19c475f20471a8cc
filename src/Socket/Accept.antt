-- ===== src/Socket/Accept.antt =====
-- `accept_connection` of src/rudp/ReliableSocket.cpp, with the constructor of the sockets it makes,
-- `listen_addr` and `bind_addr`. What arrives, and which ports can be bound, is a parameter.
pub mod Ports
mod Tests
use sharpvpn.Base.{
  ℕ, zero, suc, ◌+◌, ◌%◌, Bool, true, false, Option, none, some, ltb, if◌then◌else◌,
}
use sharpvpn.Socket.Control.{get_free_port, rto_of}

pub data SocketType : Type 0 where
  regular_socket binded_socket server_socket acceptable_socket : SocketType

-- The fields that this code reads and writes.
pub record Listener : Type 0 where
  pub socket_type : SocketType
  pub download_speed : ℕ
  pub upload_speed : ℕ
  pub free_port_now : ℕ

abbrev pub new_listener : ℕ → ℕ → Listener
new_listener down_speed up_speed = record {
  socket_type = regular_socket;
  download_speed = down_speed;
  upload_speed = up_speed;
  free_port_now = 0;
}

abbrev pub bind_addr : Bool → Listener → Listener
bind_addr bound l = if bound then record l { socket_type = binded_socket } else l

abbrev pub listen_addr : Listener → Listener
listen_addr l = record l { socket_type = acceptable_socket }

abbrev pub is_acceptable : SocketType → Bool
is_acceptable regular_socket = false
is_acceptable binded_socket = false
is_acceptable server_socket = false
is_acceptable acceptable_socket = true

-- A package that came in: a `ConnectionCreate` with the client's download speed, or another.
pub data Received : Type 0 where
  connection_create : ℕ → Received
  other : Received

-- The socket of a new connection, and the `ConnectionCreateR` that the client is sent.
pub record Accepted : Type 0 where
  pub port : ℕ
  pub send_speed : ℕ
  pub rto : ℕ
  pub worker_running : Bool
  pub reply : ℕ × ℕ

-- The loop that binds the new socket: the port, and `free_port_now`; `none` is running out of fuel.
unfoldable pub find_port : (ℕ → Bool) → ℕ → ℕ → Option (ℕ × ℕ)
find_port binds zero free_port_now = none
find_port binds (suc fuel) free_port_now =
    let (po, next) = get_free_port free_port_now in
    let later = find_port binds fuel next in if binds po then some (po, next) else later

-- The constructor of a connected socket; `set_rto(200)`.
abbrev pub connected_socket : ℕ → ℕ → ℕ × ℕ → Accepted
connected_socket speed_send port reply = record {
  port = port;
  send_speed = speed_send;
  rto = rto_of 200;
  worker_running = true;
  reply = reply;
}

-- The new socket, if there is one, and the listener; the outer `none` is running out of fuel. The
-- reply holds a speed and a port.
unfoldable pub accept_connection :
    (ℕ → Bool) → ℕ → Option Received → Listener → Option (Option Accepted × Listener)
accept_connection binds fuel arrived l =
    if is_acceptable l.socket_type
    then elim arrived [
      | none ↦ some (none, l)
      | some other ↦ some (none, l)
      | some (connection_create download_speed) ↦
          let sub_send_speed =
            if ltb download_speed l.upload_speed then download_speed else l.upload_speed in
          elim (find_port binds fuel l.free_port_now) [
            | none ↦ none
            | some (po, next) ↦ some (
              some (connected_socket sub_send_speed po (sub_send_speed, po)),
              record l { free_port_now = next },
            )
          ]
    ]
    else some (none, l)
