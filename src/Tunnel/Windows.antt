-- ===== src/Tunnel/Windows.antt =====
-- `SharpTunnel` of src/SharpTunnel.cpp on Windows, over the driver of the TAP adapter.
mod Ends
pub mod Masks
pub mod Tests
use sharpvpn.Base.{
  Str, Pton, address, invalid, bad_family, Action, pure, fail, gets, modify, fail_if, ◌>>=◌, ◌>>◌,
  ℕ, zero, suc, ◌+◌, ◌*◌, ◌/◌, ◌%◌, ◌^◌, ◌++◌, ◌==◌, ◌&&◌, ◌||◌, ℤ, List, [], ◌∷◌, Bool, true,
  false, not, Option, none, some, if◌then◌else◌, same_string,
}

-- `x & y` on so many bits.
abbrev pub bit_and : ℕ → ℕ → ℕ → ℕ
bit_and zero x y = 0
bit_and (suc n) x y =
    let rest = bit_and n (x / 2) (y / 2) in (if x % 2 == 1 && y % 2 == 1 then 1 else 0) + 2 * rest

-- An entry of `GetAdaptersAddresses`.
pub record Adapter : Type 0 where
  pub description : Str
  pub if_index : ℕ
  pub adapter_name : Str

pub record Tunnel : Type 0 where
  pub tun : ℕ
  pub running : Bool
  pub mtu : ℤ
  pub if_index : ℕ
  -- The address that was added, to delete it again.
  pub nte_context : ℕ
  pub tunnel_gateway : Str

pub data Call : Type 0 where
  -- `CreateFile` gave the handle.
  opened : ℕ → Call
  -- `TAP_WIN_IOCTL_SET_MEDIA_STATUS`
  set_media : ℕ → Bool → Call
  -- `TAP_WIN_IOCTL_CONFIG_TUN`: the address, the network and the netmask
  config_tun : ℕ → ℕ → ℕ → ℕ → Call
  -- `AddIPAddress`: address, netmask and adapter
  add_address : ℕ → ℕ → ℕ → Call
  delete_address : ℕ → Call
  -- `WinExec`
  command : Str → Call
  close : ℕ → Call

-- How `AddIPAddress` answers.
pub data Added : Type 0 where
  added : ℕ → Added
  exists : ℕ → Added
  not_added : Added

pub record Kernel : Type 0 where
  -- The list, where the second call of `GetAdaptersAddresses` succeeds.
  pub adapters : Option (List Adapter)
  pub open_device : Str → Option ℕ
  -- Whether a control call, or `DeleteIPAddress`, succeeds.
  pub succeeds : Call → Bool
  pub add_ip : ℕ → ℕ → ℕ → Added
  pub inet_pton : Str → Pton
  pub inet_ntop : ℕ → Option Str
  pub htonl : ℕ → ℕ
  pub ntohl : ℕ → ℕ
  -- How an unsigned number and an `int` are printed.
  pub print : ℕ → Str
  pub print_int : ℤ → Str

pub record Run : Type 0 where
  pub tunnel : Tunnel
  pub calls : List Call

-- "TAP-Windows Adapter V9"
abbrev pub tap_description : Str
tap_description =
    b'T' ∷ b'A' ∷ b'P' ∷ b'-' ∷ b'W' ∷ b'i' ∷ b'n' ∷ b'd' ∷ b'o' ∷ b'w' ∷ b's' ∷ b' ' ∷ b'A' ∷ b'd'
    ∷ b'a' ∷ b'p' ∷ b't' ∷ b'e' ∷ b'r' ∷ b' ' ∷ b'V' ∷ b'9' ∷ []

-- "\\.\GLOBAL\" and ".tap"
abbrev device_prefix : Str
device_prefix = b'\\' ∷ b'\\' ∷ b'.' ∷ b'\\' ∷ b'G' ∷ b'L' ∷ b'O' ∷ b'B' ∷ b'A' ∷ b'L' ∷ b'\\' ∷ []

abbrev device_suffix : Str
device_suffix = b'.' ∷ b't' ∷ b'a' ∷ b'p' ∷ []

-- "netsh interface ipv4 set subinterface ", " mtu=" and " store=persistent"
abbrev netsh_words : Str
netsh_words =
    b'n' ∷ b'e' ∷ b't' ∷ b's' ∷ b'h' ∷ b' ' ∷ b'i' ∷ b'n' ∷ b't' ∷ b'e' ∷ b'r' ∷ b'f' ∷ b'a' ∷ b'c'
    ∷ b'e' ∷ b' ' ∷ b'i' ∷ b'p' ∷ b'v' ∷ b'4' ∷ b' ' ∷ b's' ∷ b'e' ∷ b't' ∷ b' ' ∷ b's' ∷ b'u'
    ∷ b'b' ∷ b'i' ∷ b'n' ∷ b't' ∷ b'e' ∷ b'r' ∷ b'f' ∷ b'a' ∷ b'c' ∷ b'e' ∷ b' ' ∷ []

abbrev mtu_words : Str
mtu_words = b' ' ∷ b'm' ∷ b't' ∷ b'u' ∷ b'=' ∷ []

abbrev store_words : Str
store_words =
    b' ' ∷ b's' ∷ b't' ∷ b'o' ∷ b'r' ∷ b'e' ∷ b'=' ∷ b'p' ∷ b'e' ∷ b'r' ∷ b's' ∷ b'i' ∷ b's' ∷ b't'
    ∷ b'e' ∷ b'n' ∷ b't' ∷ []

-- "255.255.255.0"
abbrev pub mask_ip : Str
mask_ip =
    b'2' ∷ b'5' ∷ b'5' ∷ b'.' ∷ b'2' ∷ b'5' ∷ b'5' ∷ b'.' ∷ b'2' ∷ b'5' ∷ b'5' ∷ b'.' ∷ b'0' ∷ []

-- The search for the adapter: the first of the description, whose index must not be 0.
unfoldable pub find_tap : List Adapter → Option Adapter
find_tap [] = none
find_tap (a ∷ adapters) =
    let rest = find_tap adapters in
    if same_string a.description tap_description then some a else rest

-- How `init` ends: it returns 0 or -1, or it makes a string of a null pointer, which is undefined.
pub data Ended : Type 0 where
  started not_started undefined : Ended

module _ (k : Kernel) where
  unfoldable pub netsh : Tunnel → Str
  netsh t = netsh_words ++ (k.print t.if_index ++ (mtu_words ++ (k.print_int t.mtu ++ store_words)))

  -- The device of an adapter: its media status is set, then its mtu.
  unfoldable pub start_device : ℕ → Run → Ended × Run
  start_device h r =
      let opening = record r {
        tunnel = record r.tunnel { tun = h };
        calls = r.calls ++ (opened h ∷ set_media h true ∷ []);
      } in
      if k.succeeds (set_media h true)
      then (
        started,
        record opening {
          tunnel = record opening.tunnel { running = true };
          calls = opening.calls ++ (command (netsh opening.tunnel) ∷ []);
        },
      )
      else (not_started, opening)

  -- Where the device does not open `tun` is invalid, and nothing uses it.
  unfoldable pub open_tap : Adapter → Run → Ended × Run
  open_tap a r =
      if a.if_index == 0
      then (not_started, r)
      else (elim (k.open_device (device_prefix ++ (a.adapter_name ++ device_suffix))) [
        | none ↦ (not_started, r)
        | some h ↦ start_device h r
      ])

  -- The index that the search leaves, 0 where it finds none.
  abbrev index_of : Option Adapter → ℕ
  index_of none = 0
  index_of (some a) = a.if_index

  abbrev with_index : Option Adapter → Run → Run
  with_index a r = record r { tunnel = record r.tunnel { if_index = index_of a } }

  -- The argument is not looked at.
  unfoldable pub init : Run → Ended × Run
  init r = elim k.adapters [
    | none ↦ (undefined, r)
    | some list ↦
        let a = find_tap list in
        elim a [
          | none ↦ (not_started, with_index none r)
          | some a ↦ open_tap a (with_index (some a) r)
        ]
  ]

  -- Where the address is there already, the context is what the call leaves.
  abbrev note_added : Added → Tunnel → Tunnel
  note_added (added c) t = record t { nte_context = c }
  note_added (exists c) t = record t { nte_context = c }
  note_added not_added t = t

  abbrev is_added : Added → Bool
  is_added (added c) = true
  is_added (exists c) = true
  is_added not_added = false

  abbrev network : ℕ → ℕ → ℕ
  network ip mask = bit_and 32 ip mask

  -- The gateway: the network's number, plus one.
  abbrev pub gate_of : ℕ → ℕ → ℕ
  gate_of ip mask = k.htonl ((k.ntohl (network ip mask) + 1) % 2 ^ 32)

  abbrev log : Call → Action Run (Unit {0})
  log c = modify (λ r. record r { calls = r.calls ++ (c ∷ []) })

  -- `set_ip(uint32_t)` with the netmask that `inet_pton` wrote.
  unfoldable pub assign : ℕ → ℕ → Action Run (Unit {0})
  assign ip mask = do
    t ← gets (λ r. r.tunnel)
    log (config_tun t.tun ip (network ip mask) mask)
    fail_if (not (k.succeeds (config_tun t.tun ip (network ip mask) mask)))
    log (add_address ip mask t.if_index)
    modify (λ r. record r { tunnel = note_added (k.add_ip ip mask t.if_index) r.tunnel })
    fail_if (not (is_added (k.add_ip ip mask t.if_index)))
    elim (k.inet_ntop (gate_of ip mask)) [
      | none ↦ fail
      | some gate ↦ modify (λ r. record r { tunnel = record r.tunnel { tunnel_gateway = gate } })
    ]

  -- `memory` is the netmask where `inet_pton` does not know the family: that is not checked.
  unfoldable pub set_ip : ℕ → ℕ → Action Run (Unit {0})
  set_ip memory ip = elim (k.inet_pton mask_ip) [
    | invalid ↦ fail
    | bad_family ↦ assign ip memory
    | address mask ↦ assign ip mask
  ]

-- `set_ip()` does nothing.
abbrev pub set_own_ip : Run → Run
set_own_ip r = r

-- It returns 0 also where a call fails.
unfoldable pub shutdown : Run → Run
shutdown r =
    if r.tunnel.running
    then record r {
      tunnel = record r.tunnel { running = false };
      calls =
          r.calls
          ++ (set_media r.tunnel.tun false
              ∷ delete_address r.tunnel.nte_context
              ∷ close r.tunnel.tun
              ∷ []);
    }
    else r

-- How `ReadFile` and `WriteFile` answer: the bytes moved, at once or once the event was waited for,
-- or another error.
pub data Moved : Type 0 where
  at_once pending : ℕ → Moved
  broken : Moved

-- `read` and `write`: an error moves nothing, and is not told from an empty package.
unfoldable pub moved : Moved → ℕ
moved (at_once n) = n
moved (pending n) = n
moved broken = 0
