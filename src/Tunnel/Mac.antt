-- ===== src/Tunnel/Mac.antt =====
-- `SharpTunnel` of src/SharpTunnel.cpp on macOS, where `ifconfig` configures the device, and a
-- package has four bytes before it that say its family.
mod Ends
pub mod Tests
use sharpvpn.Base.{
  Str, Pton, address, invalid, bad_family, address_left, Action, pure, fail, gets, modify, fail_if,
  ◌>>=◌, ◌>>◌, ℕ, ◌+◌, ◌-◌, ◌*◌, ◌/◌, ◌%◌, ◌^◌, ◌++◌, ◌==◌, ltb, ℤ, pos, negsuc, inc, List, [], ◌∷◌,
  Bool, true, false, not, Option, none, some, if◌then◌else◌, length, take, drop, le16,
}
use sharpvpn.Tunnel.{Tunnel}

-- What the kernel is asked for. `opened` records a descriptor that it gave.
pub data Call : Type 0 where
  opened : ℕ → Call
  -- `CTLIOCGINFO`
  get_info : ℕ → Call
  -- `connect` to the control of an id, with a unit
  connect : ℕ → ℕ → ℤ → Call
  close : ℕ → Call
  -- a datagram socket, which is not closed
  plain_socket : Call
  -- `system`
  command : Str → Call

pub record Kernel : Type 0 where
  -- `sscanf` of the name for "utun%d"
  pub unit_of : Str → Option ℤ
  -- Whether the name of the control fits its field.
  pub name_fits : Bool
  -- `socket(PF_SYSTEM, SOCK_DGRAM, SYSPROTO_CONTROL)`
  pub control_socket : Option ℕ
  -- The id of the control, where `CTLIOCGINFO` succeeds.
  pub control_id : ℕ → Option ℕ
  pub connects : ℕ → ℕ → ℤ → Bool
  pub inet_pton : Str → Pton
  pub inet_ntoa : ℕ → Str
  pub htonl : ℕ → ℕ
  pub ntohl : ℕ → ℕ
  -- How an `int` is printed.
  pub print : ℤ → Str
  pub af_inet : ℕ
  pub af_inet6 : ℕ

pub record Run : Type 0 where
  pub tunnel : Tunnel
  pub calls : List Call

-- The pieces of the command.
abbrev ifconfig_word : Str
ifconfig_word = b'i' ∷ b'f' ∷ b'c' ∷ b'o' ∷ b'n' ∷ b'f' ∷ b'i' ∷ b'g' ∷ b' ' ∷ []

abbrev blank : Str
blank = b' ' ∷ []

abbrev mtu_word : Str
mtu_word = b' ' ∷ b'm' ∷ b't' ∷ b'u' ∷ b' ' ∷ []

abbrev up_words : Str
up_words =
    b' ' ∷ b'n' ∷ b'e' ∷ b't' ∷ b'm' ∷ b'a' ∷ b's' ∷ b'k' ∷ b' ' ∷ b'2' ∷ b'5' ∷ b'5' ∷ b'.' ∷ b'2'
    ∷ b'5' ∷ b'5' ∷ b'.' ∷ b'2' ∷ b'5' ∷ b'5' ∷ b'.' ∷ b'0' ∷ b' ' ∷ b'u' ∷ b'p' ∷ []

-- `x & 0xffffff00`
abbrev pub network_of : ℕ → ℕ
network_of x = x - x % 2 ^ 8

module _ (k : Kernel) where
  abbrev log : Call → Action Run (Unit {0})
  log c = modify (λ r. record r { calls = r.calls ++ (c ∷ []) })

  abbrev update_tunnel : (Tunnel → Tunnel) → Action Run (Unit {0})
  update_tunnel f = modify (λ r. record r { tunnel = f r.tunnel })

  unfoldable pub ifconfig : Tunnel → Str → Str → Str
  ifconfig t ip gate =
      ifconfig_word
      ++ (t.dev_name
          ++ (blank ++ (ip ++ (blank ++ (gate ++ (mtu_word ++ (k.print t.mtu ++ up_words)))))))

  -- The gateway that `set_ip()` computes from `tunnel_ip`.
  abbrev pub own_gate : ℕ → ℕ
  own_gate tunnel_ip = k.htonl (network_of tunnel_ip + 1)

  -- `set_ip()`: the address of the configuration.
  unfoldable pub set_own_ip : Action Run (Unit {0})
  set_own_ip = do
    log plain_socket
    t ← gets (λ r. r.tunnel)
    update_tunnel (λ t. record t { tunnel_ip = k.ntohl (address_left (k.inet_pton t.ip_address)) })
    elim (k.inet_pton t.ip_address) [
      | address ip ↦ log (command (ifconfig t t.ip_address (k.inet_ntoa (own_gate (k.ntohl ip)))))
      | invalid ↦ fail
      | bad_family ↦ fail
    ]

  -- The gateway that `set_ip(uint32_t)` computes from an address in network order.
  abbrev pub gate_of : ℕ → ℕ
  gate_of ip = k.htonl ((k.ntohl (ip % 2 ^ 24) + 1) % 2 ^ 32)

  -- `set_ip(uint32_t)`
  unfoldable pub set_ip : ℕ → Action Run (Unit {0})
  set_ip ip = do
    update_tunnel (λ t. record t { tunnel_gateway = k.inet_ntoa (gate_of ip) })
    t ← gets (λ r. r.tunnel)
    log (command (ifconfig t (k.inet_ntoa ip) t.tunnel_gateway))

  -- The ends of `init`: the descriptor is closed, or it is the tunnel.
  abbrev refused : ℕ → Action Run (Unit {0})
  refused fd = do log (close fd); fail

  abbrev connected : ℕ → Bool → Action Run (Unit {0})
  connected fd setip = do
    update_tunnel (λ t. record t { tun = fd; running = true })
    if setip then set_own_ip else pure tt

  -- From the descriptor on: it is closed where the control is not found or does not answer.
  unfoldable pub attach : ℕ → ℤ → Bool → Action Run (Unit {0})
  attach fd unit setip = do
    log (opened fd)
    log (get_info fd)
    elim (k.control_id fd) [
      | none ↦ refused fd
      | some id ↦ do
        log (connect fd id (inc unit))
        if k.connects fd id (inc unit) then connected fd setip else refused fd
    ]

  unfoldable pub init : Bool → Action Run (Unit {0})
  init setip = do
    t ← gets (λ r. r.tunnel)
    elim (k.unit_of t.dev_name) [
      | none ↦ fail
      | some unit ↦
          if k.name_fits
          then elim k.control_socket [ none ↦ fail | some fd ↦ attach fd unit setip ]
          else fail
    ]

-- It leaves `running` as it is.
unfoldable pub shutdown : Run → Run
shutdown r =
    if r.tunnel.running then record r { calls = r.calls ++ (close r.tunnel.tun ∷ []) } else r

-- What `readv` into four bytes and a buffer gives: a number that is not positive, or the bytes, at
-- most four more than the buffer has.
pub data Readv : Type 0 where
  nothing : ℤ → Readv
  bytes : List ℕ → Readv

-- The number that is returned, and what is in the buffer.
unfoldable pub read : Readv → ℤ × List ℕ
read (nothing r) = (r, [])
read (bytes frame) = (if ltb (length frame) 4 then pos 0 else pos (length frame - 4), drop 4 frame)

-- `ip_v`, the upper half of the first byte.
abbrev pub version_of : List ℕ → ℕ
version_of [] = 0
version_of (b ∷ buf) = b / 16 % 16

-- The four bytes of a family, in network order.
abbrev pub family_bytes : Kernel → List ℕ → List ℕ
family_bytes k buf =
    let type = k.htonl (if version_of buf == 6 then k.af_inet6 else k.af_inet) in
    le16 type ++ le16 (type / 2 ^ 16)

-- What is handed to `writev`.
abbrev pub frame_of : Kernel → List ℕ → List ℕ
frame_of k buf = family_bytes k buf ++ buf

-- What `write` makes of the result of `writev`.
unfoldable pub write : ℤ → ℤ
write (negsuc n) = negsuc n
write (pos n) = if n == 0 then pos 0 else if ltb n 4 then pos 0 else pos (n - 4)
