-- ===== src/Engine/Startup/Ownership.antt =====
-- What the engine owns after it has started and stopped (ModelEngine.start, stop), and what warmup
-- makes of a failure.
use na_ai.Base.{
  ℕ, ◌<◌, String, ◌≡◌, refl, ap, ◌∙◌, ◌⊎◌, inl, inr, Bool, true, false, Option, none, some, List,
  [], ◌∷◌, arith, Bool-cases, if◌then◌else◌,
}
use na_ai.Base.Dict.{Dict}
use na_ai.Base.Result.{Result, ok, err}
use na_ai.Engine.Config.{EngineConfig}
use na_ai.Engine.Backends.{AdapterClass, BackendError, build_env}
use na_ai.Engine.Supervisor.{new}
use na_ai.Engine.Backends.Process as Process
use na_ai.Engine.Backends.Process.{
  OsError, OperatingSystem, ProcessError, Server, opened, logged, spawned, terminated, sigterm,
}
use na_ai.Engine.Startup as Startup
use na_ai.Engine.Startup.{
  Owned, StartError, not_spawned, not_ready, wait_raised, start_as, server_stopped, start, stop,
  awaited, Content, settled, warmed, is_http_error, warmup,
}
use na_ai.Engine.Retry.{
  Exn, engine_unavailable, http_status, request_error, assertion_error, other_error,
}
use na_ai.Engine.Client.{ModelEngine, Request, chat}
use na_ai.Engine.Client.Errors.{is_reported, chat_errors}

module _ {W P : Type 0} (os : OperatingSystem W P) where
  -- From `v` to `v'` the process was sent SIGTERM and waited for, and killed where it did not end in
  -- time; a log may have been closed after that.
  abbrev pub Terminates : P → W → W → Type 0
  Terminates p v v' =
      (v' ≡ terminated os p (os.signal sigterm p v))
      ⊎ (v' ≡ os.close_log (terminated os p (os.signal sigterm p v)))

  stopped-Terminates :
      (s : Server P) (p : P) (v : W) → s.process ≡ some p → Terminates p v (Process.stop os s v).1
  unfolding Process.stop
  stopped-Terminates s p v h = elim (Bool-cases s.log_open) [
    | inl opened ↦ inr (ground (arith, opened, h))
    | inr no_log ↦ inl (ground (arith, no_log, h))
  ]

module _ {W P : Type 0} (os : OperatingSystem W P) (show : ℕ → String) (a : AdapterClass)
    (environ : Dict String) (c : EngineConfig) where
  -- The operating system has just launched the process, with the backend's command and the
  -- configuration's environment; `w` is the world after that.
  abbrev pub IsLaunched : P → W → Type 0
  IsLaunched p w =
      (command : List String) × (to_log : Bool) × (v : W) × (a.build_command c ≡ ok command)
      × (os.launch command (build_env show a environ c) to_log v ≡ (ok p, w))

  -- What a launch of an adapter without a process leaves.
  abbrev pub Launched : Result ProcessError P × Server P × W → Type 0
  Launched (ok p, s, w) = (s.process ≡ some p) × IsLaunched p w
  Launched (err x, s, w) = s.process ≡ none

  spawned-Launched :
      (command : List String) (to_log : Bool) (s : Server P) (v : W) (r : Result OsError P × W)
      → a.build_command c ≡ ok command
      → os.launch command (build_env show a environ c) to_log v ≡ r
      → s.process ≡ none
      → Launched (spawned s r)
  spawned-Launched command to_log s v (ok p, w) built e h = (refl, (command, to_log, v, built, e))
  spawned-Launched command to_log s v (err x, w) built e h = h

  launched-Launched :
      (command : Result BackendError (List String)) (to_log : Bool) (s : Server P) (w : W)
      → a.build_command c ≡ command
      → s.process ≡ none
      → Launched (Process.launched os show a environ c command to_log s w)
  launched-Launched (ok command) to_log s w built h =
      spawned-Launched command to_log s w _ built refl h
  launched-Launched (err x) to_log s w built h = h

  with_log-Launched :
      (r : Result OsError Bool × Server P × W)
      → r.1.process ≡ none
      → Launched (Process.with_log os show a environ c r)
  with_log-Launched (ok to_log, s, w) h = launched-Launched (a.build_command c) to_log s w refl h
  with_log-Launched (err x, s, w) h = h

  opened-process :
      (s : Server P) (r : Result OsError (Unit {0}) × W) → (opened s r).1.process ≡ s.process
  opened-process s (ok u, w) = refl
  opened-process s (err x, w) = refl

  logged-process :
      (dir : Option String) (s : Server P) (w : W) → (logged os dir c s w).1.process ≡ s.process
  logged-process none s w = refl
  logged-process (some dir) s w = opened-process s (os.open_log dir c w)

  start-Launched :
      (s : Server P) (w : W) → s.process ≡ none → Launched (Process.start os show a environ c s w)
  unfolding Process.start
  start-Launched s w h =
      with_log-Launched (logged os c.log_dir c s w) (logged-process c.log_dir s w ∙ h)

  module _ (wait_ready : W → Result OsError Bool × W) (max_restarts backoff_base : ℕ) where
    -- The server has answered that it is ready, if it was waited for.
    abbrev pub Awaited : Bool → W → W → Type 0
    Awaited true v w = wait_ready v ≡ (ok true, w)
    Awaited false v w = w ≡ v

    -- The engine holds this process, and to stop the engine terminates it.
    abbrev pub Holds : Owned P → P → Type 0
    Holds e p =
        (e.server.process ≡ some p)
        × ((v : W)
            → Terminates os p v
                (stop os show a environ c wait_ready max_restarts backoff_base e v).1)

    -- What is owned by the way a start has ended.
    abbrev pub Owns : (wait supervise : Bool) → Result StartError (Unit {0}) × Owned P × W → Type 0
    Owns wait supervise (ok u, e, w) =
        (p : P) × (v : W) × IsLaunched p v
        × Awaited wait v w
        × Holds e p
        × (e.supervisor ≡ (if supervise then some (new max_restarts backoff_base) else none))
    Owns wait supervise (err not_spawned, e, w) = (e.server.process ≡ none) × (e.supervisor ≡ none)
    Owns wait supervise (err not_ready, e, w) =
        (p : P) × (v v' : W) × IsLaunched p v
        × (wait_ready v ≡ (ok false, v'))
        × Terminates os p v' w
        × (e.server.process ≡ none)
        × (e.server.log_open ≡ false)
        × (e.supervisor ≡ none)
    Owns wait supervise (err wait_raised, e, w) =
        (p : P) × (v : W) × (x : OsError) × IsLaunched p v
        × (wait_ready v ≡ (err x, w))
        × Holds e p
        × (e.supervisor ≡ none)

    managed-Terminates :
        (managed : Bool) (s : Server P) (p : P) (v : W)
        → managed ≡ true
        → s.process ≡ some p
        → Terminates os p v
            (server_stopped os show a environ c wait_ready max_restarts backoff_base managed s v).1
    managed-Terminates true s p v m h = stopped-Terminates os s p v h
    managed-Terminates false s p v m h = absurd (cc)

    held : (e : Owned P) (p : P) → c.managed ≡ true → e.server.process ≡ some p → Holds e p
    unfolding stop
    held e p m h = (h, λ v. managed-Terminates c.managed e.server p v m h)

    supervised_fields :
        (supervise : Bool) (e : Owned P)
        → e.supervisor ≡ none
        → ((Startup.supervised os show a environ c wait_ready max_restarts backoff_base supervise
              e).server
            ≡ e.server)
          × ((Startup.supervised os show a environ c wait_ready max_restarts backoff_base supervise
                e).supervisor
              ≡ (if supervise then some (new max_restarts backoff_base) else none))
    supervised_fields true e h = (refl, refl)
    supervised_fields false e h = (refl, h)

    started-Owns :
        (wait supervise : Bool) (e : Owned P) (p : P) (v w : W)
        → c.managed ≡ true
        → e.server.process ≡ some p
        → e.supervisor ≡ none
        → IsLaunched p v
        → Awaited wait v w
        → Owns wait supervise (
          ok tt,
          Startup.supervised os show a environ c wait_ready max_restarts backoff_base supervise e,
          w,
        )
    started-Owns wait supervise e p v w m h q launch ready =
        let (same, watched) = supervised_fields supervise e q in
        (p, v, launch, ready, held _ p m (ap (λ s. s.process) same ∙ h), watched)

    awaited-Owns :
        (supervise : Bool) (e : Owned P) (p : P) (v : W) (r : Result OsError Bool × W)
        → c.managed ≡ true
        → e.server.process ≡ some p
        → e.supervisor ≡ none
        → IsLaunched p v
        → wait_ready v ≡ r
        → Owns true supervise
            (awaited os show a environ c wait_ready max_restarts backoff_base supervise e r)
    unfolding Process.stop
    awaited-Owns supervise e p v (ok true, w) m h q launch answer =
        started-Owns true supervise e p v w m h q launch answer
    awaited-Owns supervise e p v (ok false, w) m h q launch answer =
        (p, v, w, launch, answer, stopped-Terminates os e.server p w h, refl, refl, q)
    awaited-Owns supervise e p v (err x, w) m h q launch answer =
        (p, v, x, launch, answer, held e p m h, q)

    launched-Owns :
        (wait supervise : Bool) (e : Owned P) (r : Result ProcessError P × Server P × W)
        → c.managed ≡ true
        → e.supervisor ≡ none
        → Launched r
        → Owns wait supervise (
            Startup.launched os show a environ c wait_ready max_restarts backoff_base wait supervise
              e r)
    launched-Owns wait supervise e (err x, s, w) m q h = (h, q)
    launched-Owns true supervise e (ok p, s, w) m q h =
        awaited-Owns supervise (record e { server = s }) p w (wait_ready w) m h.0 q h.1 refl
    launched-Owns false supervise e (ok p, s, w) m q h =
        started-Owns false supervise (record e { server = s }) p w w m h.0 q h.1 refl

    start_as-Owns :
        (managed wait supervise : Bool) (e : Owned P) (w : W)
        → managed ≡ true
        → c.managed ≡ true
        → e.server.process ≡ none
        → e.supervisor ≡ none
        → Owns wait supervise (
            start_as os show a environ c wait_ready max_restarts backoff_base managed wait supervise
              e w)
    start_as-Owns true wait supervise e w h m none_runs none_watches =
        launched-Owns wait supervise e (Process.start os show a environ c e.server w) m none_watches
          (start-Launched e.server w none_runs)
    start_as-Owns false wait supervise e w h m none_runs none_watches = absurd (cc)

    -- A managed engine that owns no process and no supervisor, when its start succeeds, holds the
    -- process that the operating system launched for the backend's command, after its server
    -- answered that it is ready if that was waited for, with a supervisor if asked for; to stop the
    -- engine later sends this process SIGTERM. Where the launch fails it owns no process and no
    -- supervisor; where the server is not ready in time neither, the launched process has been sent
    -- SIGTERM and the log is closed; where the wait raises, it still holds the launched process,
    -- without a supervisor.
    pub start-Owns :
        (wait supervise : Bool) (e : Owned P) (w : W)
        → c.managed ≡ true
        → e.server.process ≡ none
        → e.supervisor ≡ none
        → Owns wait supervise
            (start os show a environ c wait_ready max_restarts backoff_base wait supervise e w)
    unfolding start
    start-Owns wait supervise e w managed none_runs none_watches =
        start_as-Owns c.managed wait supervise e w managed managed none_runs none_watches

module _ {W Reply : Type 0} (clock : W → ℕ) (send : Request → W → Result Exn Reply × W)
    (read : Reply → Content) where
  settled_reported :
      (x : Exn)
      → is_reported x ≡ true
      → (settled clock send read (err x) ≡ err x)
        ⊎ ((settled clock send read (err x) ≡ ok false)
            × (((code : ℕ) × (x ≡ http_status code) × (code < 500)) ⊎ (x ≡ request_error)))
  settled_reported engine_unavailable h = inl refl
  settled_reported assertion_error h = inl refl
  settled_reported other_error h = inl refl
  settled_reported request_error h = inr (refl, inr refl)
  settled_reported (http_status code) h = inr (refl, inl (code, refl, ground arith))
  settled_reported _ h = absurd (cc)

  -- A warm-up whose request fails raises the same error, an unavailable backend included, or it
  -- returns false, and this only for a client error below 500 or an HTTP error that is neither of the
  -- transport nor a status.
  pub warmup_fails :
      (e : ModelEngine) (w : W) (x : Exn)
      → (chat clock send (record { role = "user"; content = "ping" } ∷ []) none e w).0 ≡ err x
      → ((warmup clock send read e w).0 ≡ err x)
        ⊎ (((warmup clock send read e w).0 ≡ ok false)
            × (((code : ℕ) × (x ≡ http_status code) × (code < 500)) ⊎ (x ≡ request_error)))
  unfolding warmup
  warmup_fails e w x h = rw h (settled_reported x (chat_errors clock send _ none e w x h))
