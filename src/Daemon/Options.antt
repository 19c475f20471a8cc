-- ===== src/Daemon/Options.antt =====
-- The arguments of the program, in `main` of src/main.cpp, and what it does with them.
use sharpvpn.Base.{
  same_string, Str, ◌≡◌, refl, List, [], ◌∷◌, ◌++◌, Bool, true, false, Option, none, some,
  if◌then◌else◌, arith, All,
}
use sharpvpn.Vpn.Args.{VpnArgs}

pub data DaemonMode : Type 0 where
  daemon_null daemon_start daemon_stop daemon_restart : DaemonMode

-- "-c", "-d", "start", "stop" and "restart".
abbrev pub dash_c : Str
dash_c = b'-' ∷ b'c' ∷ []

abbrev pub dash_d : Str
dash_d = b'-' ∷ b'd' ∷ []

abbrev pub word : DaemonMode → Str
word daemon_null = []
word daemon_start = b's' ∷ b't' ∷ b'a' ∷ b'r' ∷ b't' ∷ []
word daemon_stop = b's' ∷ b't' ∷ b'o' ∷ b'p' ∷ []
word daemon_restart = b'r' ∷ b'e' ∷ b's' ∷ b't' ∷ b'a' ∷ b'r' ∷ b't' ∷ []

-- What the loop over the arguments ends in: it returns -1 on a word that it does not know, reads
-- the null pointer behind the last argument, or has read all. The configuration is `none` while no
-- file was named, as its `error` is set.
pub data Parsed : Type 0 where
  wrong undefined : Parsed
  parsed : DaemonMode → Option VpnArgs → Parsed

abbrev pub mode_of : Str → Option DaemonMode
mode_of v =
    if same_string v (word daemon_start)
    then some daemon_start
    else (if same_string v (word daemon_stop)
        then some daemon_stop
        else (if same_string v (word daemon_restart) then some daemon_restart else none))

module _ (parse_file_args : Str → VpnArgs) where
  unfoldable pub parse : List Str → DaemonMode → Option VpnArgs → Parsed
  parse [] mode args = parsed mode args
  parse (o ∷ []) mode args =
      if same_string o dash_c
      then undefined
      else (if same_string o dash_d then undefined else parsed mode args)
  parse (o ∷ v ∷ more) mode args =
      let with_file = parse more mode (some (parse_file_args v)) in
      let with_mode : DaemonMode → Parsed = λ m. parse more m args in
      let skipped = parse (v ∷ more) mode args in
      if same_string o dash_c
      then with_file
      else (if same_string o dash_d
          then elim (mode_of v) [ none ↦ wrong | some m ↦ with_mode m ]
          else skipped)

-- What `main` does, in order.
pub data Step : Type 0 where
  stop_daemon new_vpn init_vpn start_daemon run_vpn : Step

abbrev pub before_init : DaemonMode → List Step
before_init daemon_null = []
before_init daemon_start = []
before_init daemon_stop = []
before_init daemon_restart = stop_daemon ∷ []

abbrev pub after_init : DaemonMode → List Step
after_init daemon_null = run_vpn ∷ []
after_init daemon_start = start_daemon ∷ run_vpn ∷ []
after_init daemon_stop = run_vpn ∷ []
after_init daemon_restart = start_daemon ∷ run_vpn ∷ []

abbrev stops : DaemonMode → Bool
stops daemon_null = false
stops daemon_start = false
stops daemon_stop = true
stops daemon_restart = false

-- With the steps, whether the program returns 0. `runs` is whether `init` succeeds; what `stop` and
-- `start` return is not looked at. `none` is undefined.
unfoldable pub main : Bool → Parsed → Option (Bool × List Step)
main runs undefined = none
main runs wrong = some (false, [])
main runs (parsed mode none) = some (false, [])
main runs (parsed mode (some args)) =
    if args.error
    then some (false, [])
    else (if stops mode
        then some (false, stop_daemon ∷ [])
        else some (
          runs,
          before_init mode ++ (new_vpn ∷ init_vpn ∷ (if runs then after_init mode else [])),
        ))

-- An option of the command line, and how it is written.
pub data Setting : Type 0 where
  file : Str → Setting
  mode : DaemonMode → Setting

abbrev pub is_word : DaemonMode → Bool
is_word daemon_null = false
is_word daemon_start = true
is_word daemon_stop = true
is_word daemon_restart = true

abbrev pub IsSetting : Setting → Type 0
IsSetting (file f) = Unit {0}
IsSetting (mode m) = is_word m ≡ true

abbrev pub print : List Setting → List Str
print [] = []
print (file f ∷ settings) = dash_c ∷ f ∷ print settings
print (mode m ∷ settings) = dash_d ∷ word m ∷ print settings

-- The last mode, and the last file, of a list.
abbrev pub last_mode : List Setting → DaemonMode → DaemonMode
last_mode [] m = m
last_mode (file f ∷ settings) m = last_mode settings m
last_mode (mode m' ∷ settings) m = last_mode settings m'

abbrev pub last_file : List Setting → Option Str → Option Str
last_file [] f = f
last_file (file f' ∷ settings) f = last_file settings (some f')
last_file (mode m ∷ settings) f = last_file settings f

mode_of-word : (m : DaemonMode) → is_word m ≡ true → mode_of (word m) ≡ some m
mode_of-word m h = ground (arith, h)

module _ (parse_file_args : Str → VpnArgs) where
  abbrev pub args_of : Option Str → Option VpnArgs
  args_of none = none
  args_of (some f) = some (parse_file_args f)

  parse_all :
      (settings : List Setting) (m : DaemonMode) (f : Option Str)
      → All IsSetting settings
      → parse parse_file_args (print settings) m (args_of f)
        ≡ parsed (last_mode settings m) (args_of (last_file settings f))
  unfolding parse
  parse_all [] m f h = refl
  parse_all (file g ∷ settings) m f h = parse_all settings m (some g) h.1
  parse_all (mode m' ∷ settings) m f h =
      ground (arith, mode_of-word m' h.0, parse_all settings m' f h.1)

  -- Of a command line of pairs `-c` and `-d` the last file and the last mode count, in any order of
  -- the pairs, and where the file that counts is well-formed `main` does in the mode that counts
  -- what it says: it stops a daemon, or sets the VPN up and, if that succeeds, starts a daemon or
  -- not and runs, having stopped the old one first for a restart.
  pub main-parse-print :
      (settings : List Setting) (f : Str) (runs : Bool)
      → All IsSetting settings
      → last_file settings none ≡ some f
      → (parse_file_args f).error ≡ false
      → main runs (parse parse_file_args (print settings) daemon_null none)
        ≡ (elim (last_mode settings daemon_null) [
          | daemon_null ↦ some (runs, new_vpn ∷ init_vpn ∷ (if runs then run_vpn ∷ [] else []))
          | daemon_start ↦
              some (runs, new_vpn ∷ init_vpn ∷ (if runs then start_daemon ∷ run_vpn ∷ [] else []))
          | daemon_stop ↦ some (false, stop_daemon ∷ [])
          | daemon_restart ↦ some (
            runs,
            stop_daemon ∷ new_vpn ∷ init_vpn ∷ (if runs then start_daemon ∷ run_vpn ∷ [] else []),
          )
        ])
  unfolding main
  main-parse-print settings f runs h l e =
      ground (arith, l, e, parse_all settings daemon_null none h)
