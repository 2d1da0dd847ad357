-- ===== src/Engine/Backends/Process.antt =====
-- The server process of an adapter (BackendAdapter.start, stop and is_alive). The operating system is
-- a parameter: how it opens a log, launches a command, sends a signal and waits, and what may fail.
use na_ai.Base.{ℕ, String, Bool, true, false, Option, none, some, List}
use na_ai.Base.Dict.{Dict}
use na_ai.Base.Result.{Result, ok, err}
use na_ai.Engine.Config.{EngineConfig}
use na_ai.Engine.Backends.{AdapterClass, BackendError, build_env}

pub data Signal : Type 0 where
  sigterm sigkill : Signal

-- What waiting for a process comes to.
pub data Waited : Type 0 where
  exited timed_out failed : Waited

-- An exception of the operating system; that of a missing process is not one here.
pub data OsError : Type 0 where
  os_error : OsError

pub data ProcessError : Type 0 where
  process_error : ProcessError

pub record OperatingSystem (W P : Type 0) : Type 0 where
  pub open_log : String → EngineConfig → W → Result OsError (Unit {0}) × W
  pub close_log : W → W
  pub launch : List String → Dict String → Bool → W → Result OsError P × W
  pub signal : Signal → P → W → Result OsError (Unit {0}) × W
  pub wait : ℕ → P → W → Waited × W
  pub polls_none : P → W → Bool

-- What an adapter holds: its process, and whether a log file is open.
pub record Server (P : Type 0) : Type 0 where
  pub process : Option P
  pub log_open : Bool

module _ {W P : Type 0} where
  abbrev pub opened : Server P → Result OsError (Unit {0}) × W → Result OsError Bool × Server P × W
  opened s (ok u, w) = (ok true, record s { log_open = true }, w)
  opened s (err x, w) = (err x, s, w)

  abbrev pub spawned : Server P → Result OsError P × W → Result ProcessError P × Server P × W
  spawned s (ok p, w) = (ok p, record s { process = some p }, w)
  spawned s (err x, w) = (err process_error, s, w)

module _ {W P : Type 0} (os : OperatingSystem W P) where
  -- `_open_log`: a log is opened if there is a directory for it; the answer says whether it is there.
  abbrev pub logged :
      Option String → EngineConfig → Server P → W → Result OsError Bool × Server P × W
  logged none c s w = (ok false, s, w)
  logged (some dir) c s w = opened s (os.open_log dir c w)

  module _ (show : ℕ → String) (a : AdapterClass) (environ : Dict String) (c : EngineConfig) where
    abbrev pub launched :
        Result BackendError (List String)
        → Bool
        → Server P
        → W
        → Result ProcessError P × Server P × W
    launched (ok command) to_log s w =
        spawned s (os.launch command (build_env show a environ c) to_log w)
    launched (err x) to_log s w = (err process_error, s, w)

    abbrev pub with_log : Result OsError Bool × Server P × W → Result ProcessError P × Server P × W
    with_log (ok to_log, s, w) = launched (a.build_command c) to_log s w
    with_log (err x, s, w) = (err process_error, s, w)

    -- `start`
    unfoldable pub start : Server P → W → Result ProcessError P × Server P × W
    start s w = with_log (logged c.log_dir c s w)

  -- The process is killed where it does not end in time; an exception is only logged.
  abbrev pub killed : P → Result OsError (Unit {0}) × W → W
  killed p (ok u, w) = (os.wait 5 p w).1
  killed p (err x, w) = w

  abbrev pub awaited : P → Waited × W → W
  awaited p (timed_out, w) = killed p (os.signal sigkill p w)
  awaited p (exited, w) = w
  awaited p (failed, w) = w

  abbrev pub terminated : P → Result OsError (Unit {0}) × W → W
  terminated p (ok u, w) = awaited p (os.wait 15 p w)
  terminated p (err x, w) = w

  abbrev pub ended : Option P → W → W
  ended none w = w
  ended (some p) w = terminated p (os.signal sigterm p w)

  -- `stop`
  unfoldable pub stop : Server P → W → Server P × W
  stop s w =
      let w' = ended s.process w in
      (
        record { process = none; log_open = false },
        elim s.log_open [ true ↦ os.close_log w' | false ↦ w' ],
      )

  -- `is_alive`
  abbrev pub is_alive : Server P → W → Bool
  is_alive s w = elim s.process [ none ↦ false | some p ↦ os.polls_none p w ]
