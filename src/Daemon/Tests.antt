-- ===== src/Daemon/Tests.antt =====
-- Runs of the daemon's code on small inputs.
use sharpvpn.Base.{
  Str, ℕ, zero, suc, ◌+◌, ◌<◌, ◌≡◌, refl, ◌⊎◌, pos, List, [], ◌∷◌, true, false, none, some,
}
use sharpvpn.Vpn.Args.{VpnArgs, get_default_args}
use sharpvpn.Daemon.Stop.{
  World, Killed, done, no_process, failed, Gone, Stays, max_polls, stop, stop_lem,
}
use sharpvpn.Daemon.PidFile.{Disk, absent, number, start, child, signals, start_lem}
use sharpvpn.Daemon.Options.{
  daemon_null, daemon_restart, daemon_start, file, mode, Setting, stop_daemon, new_vpn, init_vpn,
  start_daemon, run_vpn, parse, print, main, main-parse-print,
}

-- A process that is gone at the third poll.
abbrev third : ℕ → Killed
third zero = done
third (suc zero) = failed
third (suc (suc n)) = no_process

abbrev world : World
world = record {
  opens = true;
  reads = some (pos 7);
  terminate = done;
  polled = third;
  unlinks = true;
}

stop_lem_example :
    ((n : ℕ) × (n < max_polls)
      × Gone third 0 n
      × (stop world ≡ record { ok = true; polls = n + 1; removed = true }))
    ⊎ (Stays third max_polls 0
        × (stop world ≡ record { ok = false; polls = max_polls; removed = false }))
stop_lem_example = stop_lem world 6 refl refl refl

abbrev disk : Disk
disk = record { creates = true; writes = true; reopens_stdout = true; reopens_stderr = false }

start_lem_example :
    (signals (start child disk (pos 9) absent).events ≡ 1)
    × ((start child disk (pos 9) absent).ok ≡ false)
    × (start child disk (pos 9) (number (pos 7)) ≡ start child disk (pos 9) absent)
start_lem_example = start_lem disk (pos 9) (pos 7) absent refl

abbrev settings : List Setting
settings = mode daemon_start ∷ file (b'a' ∷ []) ∷ mode daemon_restart ∷ []

abbrev args_of_file : Str → VpnArgs
args_of_file f = record get_default_args { error = false }

main-parse-print_example :
    main true (parse args_of_file (print settings) daemon_null none)
    ≡ some (true, stop_daemon ∷ new_vpn ∷ init_vpn ∷ start_daemon ∷ run_vpn ∷ [])
main-parse-print_example =
    main-parse-print args_of_file settings (b'a' ∷ []) true (refl, (tt, (refl, tt))) refl refl
