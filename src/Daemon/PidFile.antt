-- ===== src/Daemon/PidFile.antt =====
-- `DaemonRuntime::write_pid_file` and `start`: the pid file, and what the two processes do.
use sharpvpn.Base.{
  ℕ, suc, ◌≡◌, ℤ, List, [], ◌∷◌, Bool, true, false, not, ◌&&◌, Option, none, some, if◌then◌else◌,
  arith,
}

-- A file that is not there, that holds a number, or that holds something else.
pub data File : Type 0 where
  absent other : File
  number : ℤ → File

abbrev pub is_there : File → Bool
is_there absent = false
is_there other = true
is_there (number n) = true

-- `fs >> pid`: nothing is read from a stream that did not open.
abbrev pub read_number : File → Option ℤ
read_number absent = none
read_number other = none
read_number (number n) = some n

-- Whether a file can be opened to write, and written, and whether the two streams can be sent to
-- the log file.
pub record Disk : Type 0 where
  pub creates : Bool
  pub writes : Bool
  pub reopens_stdout : Bool
  pub reopens_stderr : Bool

-- Opening to write empties the file.
abbrev write_number : Disk → ℤ → File → Bool × File
write_number d pid file =
    if d.creates then (if d.writes then (true, number pid) else (false, other)) else (false, file)

-- Whether it returns 0, and the file after it. The file is read where it did not open.
unfoldable pub write_pid_file : Disk → ℤ → File → Bool × File
write_pid_file d pid file =
    if not (is_there file)
    then elim (read_number file) [ some p ↦ (false, file) | none ↦ write_number d pid file ]
    else write_number d pid file

-- What `fork` returns.
pub data Forked : Type 0 where
  no_fork parent child : Forked

pub data Event : Type 0 where
  wait_for_signal exit signal_parent new_session ignore_hangup close_stdin : Event

-- Whether `start` returns 0, which it does in the child only; the process's calls, and the file.
pub record Started : Type 0 where
  pub ok : Bool
  pub events : List Event
  pub file : File

-- The child, `pid` its own number.
abbrev pub start_child : Disk → ℤ → File → Started
start_child d pid file =
    let (ok, file') = write_pid_file d pid file in
    if ok
    then record {
      ok = d.reopens_stdout && d.reopens_stderr;
      events = new_session ∷ ignore_hangup ∷ signal_parent ∷ close_stdin ∷ [];
      file = file';
    }
    else record { ok = false; events = signal_parent ∷ []; file = file' }

unfoldable pub start : Forked → Disk → ℤ → File → Started
start no_fork d pid file = record { ok = false; events = []; file = file }
start parent d pid file = record { ok = true; events = wait_for_signal ∷ exit ∷ []; file = file }
start child d pid file = start_child d pid file

-- How often the parent is signalled.
abbrev pub signals : List Event → ℕ
signals [] = 0
signals (signal_parent ∷ events) = suc (signals events)
signals (wait_for_signal ∷ events) = signals events
signals (exit ∷ events) = signals events
signals (new_session ∷ events) = signals events
signals (ignore_hangup ∷ events) = signals events
signals (close_stdin ∷ events) = signals events

-- Where the pid file can be created, the child signals its parent once, whether or not the file was
-- written, so the parent does not wait for longer than the child needs; `start` returns 0 in the
-- child exactly if the file could be written and both streams could be sent to the log file. What
-- the file held does not count: with the number of a process in it, `start` does what it does
-- without a file.
pub start_lem :
    (d : Disk) (pid held : ℤ) (file : File)
    → d.creates ≡ true
    → (signals (start child d pid file).events ≡ 1)
      × ((start child d pid file).ok ≡ (d.writes && (d.reopens_stdout && d.reopens_stderr)))
      × (start child d pid (number held) ≡ start child d pid absent)
unfolding start write_pid_file
start_lem d pid held file c = ground (arith, c)
