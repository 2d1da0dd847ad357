-- ===== src/Engine/Startup.antt =====
-- How ModelEngine of omniai/engine/engine.py starts and stops: start, stop, health and warmup. The
-- operating system, the wait for the server and the backend's answers are parameters.
pub mod Ownership
mod Tests
use na_ai.Base.{ℕ, String, Bool, true, false, Option, none, some, [], ◌∷◌, if◌then◌else◌}
use na_ai.Base.Dict.{Dict}
use na_ai.Base.Result.{Result, ok, err}
use na_ai.Engine.Config.{EngineConfig}
use na_ai.Engine.Backends.{AdapterClass}
use na_ai.Engine.Backends.Process as Process
use na_ai.Engine.Backends.Process.{OsError, ProcessError, OperatingSystem, Server, is_alive}
use na_ai.Engine.Backends.Readiness.{is_healthy}
use na_ai.Engine.Supervisor.{EngineSupervisor, new}
use na_ai.Engine.Retry.{Exn, engine_unavailable, assertion_error, other_error}
use na_ai.Engine.Client.{ModelEngine, Request, chat}

-- What the facade owns: the adapter's server, the supervisor, and an HTTP client that may be open.
pub record Owned (P : Type 0) : Type 0 where
  pub server : Server P
  pub supervisor : Option EngineSupervisor
  pub client_open : Bool

pub data StartError : Type 0 where
  not_spawned not_ready wait_raised : StartError

module _ {W P : Type 0} (os : OperatingSystem W P) (show : ℕ → String) (a : AdapterClass)
    (environ : Dict String) (c : EngineConfig) (wait_ready : W → Result OsError Bool × W)
    (max_restarts backoff_base : ℕ) where
  -- `managed=False`: the engine only waits for a server that is there.
  abbrev pub attached :
      Owned P → Result OsError Bool × W → Result StartError (Unit {0}) × Owned P × W
  attached e (ok true, w) = (ok tt, e, w)
  attached e (ok false, w) = (err not_ready, e, w)
  attached e (err x, w) = (err wait_raised, e, w)

  abbrev pub supervised : Bool → Owned P → Owned P
  supervised false e = e
  supervised true e = record e { supervisor = some (new max_restarts backoff_base) }

  -- The server is stopped where it is not ready in time, but not where the wait raises.
  abbrev pub awaited :
      Bool → Owned P → Result OsError Bool × W → Result StartError (Unit {0}) × Owned P × W
  awaited supervise e (ok true, w) = (ok tt, supervised supervise e, w)
  awaited supervise e (ok false, w) =
      let (s, w') = Process.stop os e.server w in (err not_ready, record e { server = s }, w')
  awaited supervise e (err x, w) = (err wait_raised, e, w)

  abbrev pub launched :
      Bool
      → Bool
      → Owned P
      → Result ProcessError P × Server P × W
      → Result StartError (Unit {0}) × Owned P × W
  launched wait supervise e (err x, s, w) = (err not_spawned, record e { server = s }, w)
  launched true supervise e (ok p, s, w) =
      awaited supervise (record e { server = s }) (wait_ready w)
  launched false supervise e (ok p, s, w) =
      (ok tt, supervised supervise (record e { server = s }), w)

  -- `start`, by whether the engine is managed and whether it waits.
  abbrev pub start_as :
      (managed wait supervise : Bool) → Owned P → W → Result StartError (Unit {0}) × Owned P × W
  start_as true wait supervise e w =
      launched wait supervise e (Process.start os show a environ c e.server w)
  start_as false true supervise e w = attached e (wait_ready w)
  start_as false false supervise e w = (ok tt, e, w)

  unfoldable pub start :
      (wait supervise : Bool) → Owned P → W → Result StartError (Unit {0}) × Owned P × W
  start wait supervise e w = start_as c.managed wait supervise e w

  abbrev pub server_stopped : Bool → Server P → W → Server P × W
  server_stopped true s w = Process.stop os s w
  server_stopped false s w = (s, w)

  -- `stop`
  unfoldable pub stop : Owned P → W → Owned P × W
  stop e w =
      let (s, w') = server_stopped c.managed e.server w in
      (record { server = s; supervisor = none; client_open = false }, w')

pub record Health : Type 0 where
  pub process : Bool
  pub server : Bool
  pub active_lora : Option String

-- `health`; `get_health` is the status of the endpoint, or none for an `httpx.HTTPError`.
pub health :
    {W P : Type 0}
    → OperatingSystem W P
    → (W → Option ℕ × W)
    → Server P
    → Option String
    → W
    → Health × W
health os get_health s active w =
    let (status, w') = get_health w in
    (record { process = is_alive os s w'; server = is_healthy status; active_lora = active }, w')

-- What reading an answer of the chat endpoint comes to.
pub data Content : Type 0 where
  content : String → Content
  key_error index_error : Content

-- `httpx.HTTPError`
abbrev pub is_http_error : Exn → Bool
is_http_error engine_unavailable = false
is_http_error assertion_error = false
is_http_error other_error = false
is_http_error _ = true

module _ {W Reply : Type 0} (clock : W → ℕ) (send : Request → W → Result Exn Reply × W)
    (read : Reply → Content) where
  -- What `warmup` makes of the result of `chat`.
  abbrev pub warmed : Content → Result Exn Bool
  warmed (content s) = ok true
  warmed key_error = ok false
  warmed index_error = err other_error

  abbrev pub settled : Result Exn Reply → Result Exn Bool
  settled (ok reply) = warmed (read reply)
  settled (err x) = if is_http_error x then ok false else err x

  -- `warmup`; its limit of one token is not a part of the payload here.
  unfoldable pub warmup : ModelEngine → W → Result Exn Bool × ModelEngine × W
  warmup e w =
      let (r, e', w') =
        chat clock send (record { role = "user"; content = "ping" } ∷ []) none e w in
      (settled r, e', w')
