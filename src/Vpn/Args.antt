-- ===== src/Vpn/Args.antt =====
-- `VpnArgs`, `get_default_args`, `parse_file_args` and `refresh_args_file` of src/SharpVpn.cpp. A
-- string is the list of its characters' codes. The JSON library is not part of the repository: a
-- `Json` is an object as the code sees it, the member of each name, if there is one, as the code
-- asks for it. The text of a file, and what the library writes and reads, are parameters.
use sharpvpn.Base.{
  same_string, ℕ, ◌≡◌, refl, List, [], ◌∷◌, Bool, true, false, if◌then◌else◌, Option, none, some,
}

pub data SharpvpnMode : Type 0 where
  server client : SharpvpnMode

pub record VpnArgs : Type 0 where
  pub mode : SharpvpnMode
  pub bind_host : List ℕ
  pub bind_port : ℕ
  pub tunnel_ip : List ℕ
  pub tunnel_name : List ℕ
  pub mtu : ℕ
  pub download_speed : ℕ
  pub upload_speed : ℕ
  pub encryption_key : List ℕ
  pub pid_file : List ℕ
  pub log_file : List ℕ
  pub chnroute_file : List ℕ
  pub chinadns_host : List ℕ
  pub token : List ℕ
  pub error : Bool

-- The members that the code asks for, a string or a number each.
pub record Json : Type 0 where
  pub mode : Option (List ℕ)
  pub server : Option (List ℕ)
  pub port : Option ℕ
  pub tunnel_name : Option (List ℕ)
  pub mtu : Option ℕ
  pub tunnel_ip : Option (List ℕ)
  pub download_speed : Option ℕ
  pub upload_speed : Option ℕ
  pub password : Option (List ℕ)
  pub log : Option (List ℕ)
  pub chnroute : Option (List ℕ)
  pub chinadns_host : Option (List ℕ)
  pub token : Option (List ℕ)

-- "server" and "client"
abbrev server_word : List ℕ
server_word = 115 ∷ 101 ∷ 114 ∷ 118 ∷ 101 ∷ 114 ∷ []

abbrev client_word : List ℕ
client_word = 99 ∷ 108 ∷ 105 ∷ 101 ∷ 110 ∷ 116 ∷ []

-- `if (!root[name].isNull()) field = ...`
abbrev member_or : {A : Type 0} → A → Option A → A
member_or default none = default
member_or default (some x) = x

-- "0.0.0.0", "my_password", "10.7.0.1", "tun0", "/var/run/sharpvpn.pid", "sharpvpn.log" and
-- "default_token".
unfoldable pub get_default_args : VpnArgs
get_default_args = record {
  mode = server;
  bind_host = 48 ∷ 46 ∷ 48 ∷ 46 ∷ 48 ∷ 46 ∷ 48 ∷ [];
  bind_port = 50010;
  tunnel_ip = 49 ∷ 48 ∷ 46 ∷ 55 ∷ 46 ∷ 48 ∷ 46 ∷ 49 ∷ [];
  tunnel_name = 116 ∷ 117 ∷ 110 ∷ 48 ∷ [];
  mtu = 1496;
  download_speed = 100;
  upload_speed = 100;
  encryption_key = 109 ∷ 121 ∷ 95 ∷ 112 ∷ 97 ∷ 115 ∷ 115 ∷ 119 ∷ 111 ∷ 114 ∷ 100 ∷ [];
  pid_file =
      47 ∷ 118 ∷ 97 ∷ 114 ∷ 47 ∷ 114 ∷ 117 ∷ 110 ∷ 47 ∷ 115 ∷ 104 ∷ 97 ∷ 114 ∷ 112 ∷ 118 ∷ 112 ∷ 110
      ∷ 46 ∷ 112 ∷ 105 ∷ 100 ∷ [];
  log_file = 115 ∷ 104 ∷ 97 ∷ 114 ∷ 112 ∷ 118 ∷ 112 ∷ 110 ∷ 46 ∷ 108 ∷ 111 ∷ 103 ∷ [];
  chnroute_file = [];
  chinadns_host = [];
  token = 100 ∷ 101 ∷ 102 ∷ 97 ∷ 117 ∷ 108 ∷ 116 ∷ 95 ∷ 116 ∷ 111 ∷ 107 ∷ 101 ∷ 110 ∷ [];
  error = false;
}

abbrev mode_of : SharpvpnMode → Option (List ℕ) → SharpvpnMode
mode_of default none = default
mode_of default (some word) = if same_string word server_word then server else client

-- `none` is a file that does not parse.
unfoldable pub parse_file_args : Option Json → VpnArgs
parse_file_args none = record get_default_args { error = true }
parse_file_args (some root) = record get_default_args {
  mode = mode_of get_default_args.mode root.mode;
  bind_host = member_or get_default_args.bind_host root.server;
  bind_port = member_or get_default_args.bind_port root.port;
  tunnel_name = member_or get_default_args.tunnel_name root.tunnel_name;
  mtu = member_or get_default_args.mtu root.mtu;
  tunnel_ip = member_or get_default_args.tunnel_ip root.tunnel_ip;
  download_speed = member_or get_default_args.download_speed root.download_speed;
  upload_speed = member_or get_default_args.upload_speed root.upload_speed;
  encryption_key = member_or get_default_args.encryption_key root.password;
  log_file = member_or get_default_args.log_file root.log;
  chnroute_file = member_or get_default_args.chnroute_file root.chnroute;
  chinadns_host = member_or get_default_args.chinadns_host root.chinadns_host;
  token = member_or get_default_args.token root.token;
  error = false;
}

abbrev word_of : SharpvpnMode → List ℕ
word_of server = server_word
word_of client = client_word

-- The object that is written; the file of the log is not part of it.
unfoldable pub json_of : VpnArgs → Json
json_of args = record {
  mode = some (word_of args.mode);
  server = some args.bind_host;
  port = some args.bind_port;
  tunnel_name = some args.tunnel_name;
  mtu = some args.mtu;
  tunnel_ip = some args.tunnel_ip;
  download_speed = some args.download_speed;
  upload_speed = some args.upload_speed;
  password = some args.encryption_key;
  log = none;
  chnroute = some args.chnroute_file;
  chinadns_host = some args.chinadns_host;
  token = some args.token;
}

-- Whether it returns 0, and the text of the file after it. `opens` is whether the file can be opened
-- for writing, `text` what it holds before.
unfoldable pub refresh_args_file :
    {Text : Type 0} → (Json → Text) → Bool → VpnArgs → Text → Bool × Text
refresh_args_file write opens args text =
    if opens then (true, write (json_of args)) else (false, text)

mode-word : (m : SharpvpnMode) → mode_of server (some (word_of m)) ≡ m
mode-word server = refl
mode-word client = refl

parse_file_args-json_of :
    (args : VpnArgs)
    → parse_file_args (some (json_of args)) ≡ record args {
      pid_file = get_default_args.pid_file;
      log_file = get_default_args.log_file;
      error = false;
    }
unfolding parse_file_args json_of get_default_args
parse_file_args-json_of args = rw (mode-word args.mode) refl

-- With a JSON library that reads the objects that it wrote: where the file can be opened, the writing
-- of a configuration succeeds, and what is read back is as it was, but for the names of the log and
-- the process-id file, which are the default ones again, and the mark of an error, which is off.
-- Where it cannot be opened, the writing fails, and the file is as it was.
pub parse_file_args-refresh_args_file :
    {Text : Type 0} (write : Json → Text) (read : Text → Option Json)
    → ((j : Json) → read (write j) ≡ some j)
    → (args : VpnArgs) (text : Text)
    → let (ok, text') = refresh_args_file write true args text in
      (ok ≡ true)
      × (parse_file_args (read text') ≡ record args {
        pid_file = get_default_args.pid_file;
        log_file = get_default_args.log_file;
        error = false;
      })
      × (refresh_args_file write false args text ≡ (false, text))
unfolding refresh_args_file
parse_file_args-refresh_args_file write read h args text =
    (refl, rw (h (json_of args)) (parse_file_args-json_of args), refl)
