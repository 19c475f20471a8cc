-- ===== src/RouteTable/Windows/Chnroute.antt =====
-- `set_chnroute` and `delete_chnroute` of src/RouteTable.cpp on Windows.
use sharpvpn.Base.{
  Str, ℕ, ◌++◌, List, [], ◌∷◌, Bool, true, false, Option, none, some, ℤ, pos, if◌then◌else◌,
}
use sharpvpn.RouteTable.{RouteRow, new_row}
use sharpvpn.RouteTable.Chnroute.{ones_ip}
use sharpvpn.RouteTable.Lines.{load_rows}
use sharpvpn.RouteTable.Windows.{
  IpRow, RouteTable, Kernel, Memory, Run, Ended, returned, null_pointer, Request, create, delete,
  command, ask, on_row, get_default_route,
}

abbrev is_empty : Str → Bool
is_empty [] = true
is_empty (c ∷ s) = false

-- The route to the server. Its gateway is not looked at but for its form.
abbrev pub host_row : Str → RouteRow
host_row remote_ip = record get_default_route.0 {
  dst = remote_ip;
  netmask = ones_ip;
  netmask_sharp = pos 32;
}

-- The command that has the system find its name servers again.
abbrev pub dns_back : Kernel → RouteTable → Str
dns_back k t = dns_words ++ (k.print t.default_origin_backup.if_index ++ dhcp_words)
  where
    dns_words : Str
    dns_words =
        b'n' ∷ b'e' ∷ b't' ∷ b's' ∷ b'h' ∷ b' ' ∷ b'i' ∷ b'n' ∷ b't' ∷ b'e' ∷ b'r' ∷ b'f' ∷ b'a'
        ∷ b'c' ∷ b'e' ∷ b' ' ∷ b'i' ∷ b'p' ∷ b' ' ∷ b's' ∷ b'e' ∷ b't' ∷ b' ' ∷ b'd' ∷ b'n' ∷ b's'
        ∷ b' ' ∷ b'n' ∷ b'a' ∷ b'm' ∷ b'e' ∷ b'=' ∷ []

    dhcp_words : Str
    dhcp_words =
        b' ' ∷ b's' ∷ b'o' ∷ b'u' ∷ b'r' ∷ b'c' ∷ b'e' ∷ b'=' ∷ b'd' ∷ b'h' ∷ b'c' ∷ b'p' ∷ []

module _ (k : Kernel) (memory : Memory) where
  -- One row after the other; only a null pointer ends the loop.
  unfoldable pub on_rows : (IpRow → Request) → List RouteRow → Run → Ended × Run
  on_rows request [] r = (returned true, r)
  on_rows request (row ∷ rows) r =
      let (ended, r') = on_row k memory request row r in
      let rest = on_rows request rows r' in
      elim ended [ returned b ↦ rest | null_pointer ↦ (null_pointer, r') ]

  abbrev set_modified : Bool → Run → Run
  set_modified b r = record r { table = record r.table { modified = b } }

  module _ (strtol : Str → ℤ) (files : Str → Option (List Str)) (buf : ℕ → ℕ) where
    -- The lines of the file, once the route to the server is asked for.
    unfoldable pub add_lines : Str → Str → Run → Ended × Run
    add_lines filename remote_ip r =
        if is_empty filename then (returned true, r) else elim (files filename) [
          | none ↦ (returned false, r)
          | some lines ↦ on_rows create (load_rows strtol lines buf (host_row remote_ip)) r
        ]

    unfoldable pub set_chnroute : Str → Str → Run → Ended × Run
    set_chnroute filename remote_ip r =
        let (ended, r') = on_row k memory create (host_row remote_ip) r in
        elim ended [
          | returned b ↦ add_lines filename remote_ip (set_modified true r')
          | null_pointer ↦ (null_pointer, r')
        ]

    unfoldable pub delete_lines : Str → Run → Ended × Run
    delete_lines filename r = elim (files filename) [
      | none ↦ (returned false, r)
      | some lines ↦
          let (ended, r') = on_rows delete (load_rows strtol lines buf new_row) r in
          elim ended [
            | returned b ↦
                (returned true, ask (command (dns_back k r'.table)) (set_modified false r'))
            | null_pointer ↦ (null_pointer, r')
          ]
    ]

    -- The default route comes back before the file is opened.
    unfoldable pub delete_chnroute : Str → Run → Ended × Run
    delete_chnroute filename r =
        let back =
          ask (create r.table.default_origin_backup) (ask (delete r.table.tunnel_route) r) in
        if r.table.modified
        then (if is_empty filename then (returned true, back) else delete_lines filename back)
        else (returned true, r)
