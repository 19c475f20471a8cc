-- ===== src/Tunnel.antt =====
-- `SharpTunnel` of src/SharpTunnel.cpp on Linux. The kernel is not part of the program: what the
-- program asks of it is a list of calls, in order, and which of them succeed is a parameter, as are
-- the C library's functions on addresses.
pub mod Bringup
pub mod Addresses
pub mod Gateway
pub mod Mac
pub mod Windows
pub mod Platforms
mod Tests
use sharpvpn.Base.{
  Str, Pton, address, invalid, bad_family, address_left, Action, pure, fail, gets, modify, fail_if,
  ◌>>=◌, ◌>>◌, ℕ, ◌+◌, ◌%◌, ◌^◌, ◌++◌, ℤ, List, [], ◌∷◌, Bool, true, false, not, Option, none, some,
  if◌then◌else◌, take,
}

pub record Tunnel : Type 0 where
  pub tun : ℕ
  pub running : Bool
  pub mtu : ℤ
  pub dev_name : Str
  pub ip_address : Str
  pub tunnel_gateway : Str
  pub tunnel_ip : ℕ

-- The calls on a device of a name, and on a descriptor.
pub data Call : Type 0 where
  -- `SIOCSIFADDR`, `SIOCSIFNETMASK`
  set_address set_netmask : Str → ℕ → Call
  -- `SIOCSIFMTU`
  set_mtu : Str → ℤ → Call
  -- `SIOCSIFFLAGS` with `IFF_UP`
  bring_up : Str → Call
  -- `TUNSETIFF`
  set_iff : ℕ → Str → Call
  close : ℕ → Call

pub record Kernel : Type 0 where
  -- The descriptor of /dev/net/tun, where it opens.
  pub open_tun : Option ℕ
  pub succeeds : Call → Bool
  pub inet_pton : Str → Pton
  pub inet_ntoa : ℕ → Str
  pub htonl : ℕ → ℕ
  pub ntohl : ℕ → ℕ

-- The object, and the calls so far.
pub record Run : Type 0 where
  pub tunnel : Tunnel
  pub calls : List Call

-- `strncpy` into the 16 bytes of `ifr_name`.
abbrev pub ifr_name : Tunnel → Str
ifr_name t = take 16 t.dev_name

-- "255.255.255.0"
abbrev pub mask_ip : Str
mask_ip =
    b'2' ∷ b'5' ∷ b'5' ∷ b'.' ∷ b'2' ∷ b'5' ∷ b'5' ∷ b'.' ∷ b'2' ∷ b'5' ∷ b'5' ∷ b'.' ∷ b'0' ∷ []

abbrev is_invalid : Pton → Bool
is_invalid (address a) = false
is_invalid invalid = true
is_invalid bad_family = false

module _ (k : Kernel) where
  abbrev pub ask : Call → Action Run (Unit {0})
  ask c = do modify (λ r. record r { calls = r.calls ++ (c ∷ []) }); fail_if (not (k.succeeds c))

  abbrev update_tunnel : (Tunnel → Tunnel) → Action Run (Unit {0})
  update_tunnel f = modify (λ r. record r { tunnel = f r.tunnel })

  -- The address of a device, its mtu and netmask, and the flag that brings it up: what both of the
  -- functions `set_ip` do, one call after the other.
  unfoldable pub configure : ℕ → Action Run (Unit {0})
  configure ip = do
    t ← gets (λ r. r.tunnel)
    ask (set_address (ifr_name t) ip)
    ask (set_mtu (ifr_name t) t.mtu)
    fail_if (is_invalid (k.inet_pton mask_ip))
    ask (set_netmask (ifr_name t) (address_left (k.inet_pton mask_ip)))
    ask (bring_up (ifr_name t))

  -- `set_ip()`: the address of the configuration.
  unfoldable pub set_own_ip : Action Run (Unit {0})
  set_own_ip = do
    t ← gets (λ r. r.tunnel)
    update_tunnel (λ t. record t { tunnel_ip = k.ntohl (address_left (k.inet_pton t.ip_address)) })
    elim (k.inet_pton t.ip_address) [
      | address ip ↦ configure ip
      | invalid ↦ fail
      | bad_family ↦ fail
    ]

  -- The gateway of an address in network order: the first three bytes of the address, plus one.
  abbrev pub gateway_of : ℕ → ℕ
  gateway_of ip = k.htonl ((k.ntohl (ip % 2 ^ 24) + 1) % 2 ^ 32)

  -- `set_ip(uint32_t)`
  unfoldable pub set_ip : ℕ → Action Run (Unit {0})
  set_ip ip = do
    configure ip
    update_tunnel (λ t. record t { tunnel_gateway = k.inet_ntoa (gateway_of ip) })

  -- A descriptor that cannot be set up is closed again.
  abbrev attach : ℕ → Str → Action Run (Unit {0})
  attach fd name r =
      let (result, r') = ask (set_iff fd name) r in
      elim result [
        | some x ↦ (some x, r')
        | none ↦ (none, record r' { calls = r'.calls ++ (close fd ∷ []) })
      ]

  unfoldable pub init : Bool → Action Run (Unit {0})
  init setip = elim k.open_tun [
    | none ↦ fail
    | some fd ↦ do
      t ← gets (λ r. r.tunnel)
      attach fd (ifr_name t)
      update_tunnel (λ t. record t { tun = fd })
      if setip then set_own_ip else pure tt
      update_tunnel (λ t. record t { running = true })
  ]

-- It always returns 0, and leaves `running` as it is.
unfoldable pub shutdown : Run → Run
shutdown r =
    if r.tunnel.running then record r { calls = r.calls ++ (close r.tunnel.tun ∷ []) } else r

-- The constructor; the descriptor and the address are what memory holds.
abbrev pub new_tunnel : ℕ → ℕ → Str → Str → ℤ → Tunnel
new_tunnel fd ip dev_n ip_address dev_mtu = record {
  tun = fd;
  running = false;
  mtu = dev_mtu;
  dev_name = dev_n;
  ip_address = ip_address;
  tunnel_gateway = [];
  tunnel_ip = ip;
}
