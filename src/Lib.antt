-- ===== src/Lib.antt =====
-- A model of omniai, a framework that serves a language model and runs agents over it.
--
-- How the parts interact. A client's message arrives at the gateway, whose middleware authenticates
-- it, counts it against the key's budget and caps its body. The gateway's handler is a compiled agent
-- graph: its nodes call a chat model and tools, and merge what they return into a state. The chat
-- model may be the local engine: a facade that posts to a backend process through a circuit breaker
-- and retries, keeps a registry of LoRA adapters, and is restarted by a supervisor. A log of the
-- messages feeds a learner, which trains adapters, has them judged, and loads them into the engine.
--
-- The files, and the code that they model:
--   Base, Base/*: tests, lists and dictionaries over the native numbers, results that may raise.
--   Engine/Breaker, Engine/Retry, Engine/Supervisor: CircuitBreaker, with_retries and EngineSupervisor
--     of omniai/engine/resilience.py. `call` is cut where it awaits: `begin` and `settle` are its
--     parts before and after, so that runs interleave calls.
--   Engine/Registry: LoRARegistry of omniai/engine/lora.py, with the object that its file holds.
--   Engine/Client: ModelEngine of omniai/engine/engine.py: _post, chat, load_lora_adapter,
--     unload_lora_adapter, rollback_lora and reapply_active_lora.
--   Engine/Config, Engine/Backends: EngineConfig of omniai/engine/config.py, and the adapters of
--     omniai/engine/backends.py, with their process (Process) and their readiness loop (Readiness).
--   Engine/Startup, Engine/Streaming: start, stop, health and warmup of ModelEngine, and stream_chat.
--   Protocol: the messages of omniai/protocol.py.
--   Models/Wire: omni_to_openai of omniai/models/base.py.
--   Models/Anthropic: _to_anthropic of omniai/models/anthropic.py.
--   Models/Providers: parse_openai_tool_calls of omniai/models/base.py, and generate of the clients in
--     omniai/models: openai.py, engine.py, and anthropic.py (Claude).
--   Models/Structured: _extract_json and StructuredOutput.invoke of omniai/models/structured.py.
--   Prompts: the templates of omniai/prompts.py.
--   Evals/Gate: AdapterGate of omniai/evals/gate.py.
--   Graph/State, Graph/Builder, Graph/Executor, Graph/Agent, Graph/Tools: State, Graph, CompiledGraph,
--     create_tool_agent and Tool of omniai/graph.
--   Memory/Buffer, Memory/Pairs, Memory/Learning, Memory/Curation: InteractionBuffer of
--     omniai/memory/buffer.py, format_training_pairs and ContinuousLearner of omniai/memory/learning.py,
--     and InteractionJudge of omniai/memory/curation.py.
--   Memory/Curation/Scores, Memory/Skills, Memory/Rehearsal: the score of a pair, SkillLoader and
--     RehearsalBuffer, of omniai/memory.
--   Sandbox: SandboxExecution of omniai/sandbox/executor.py.
--   Settings: _split_csv and validate_security of omniai/settings.py.
--   Tenancy: AgentProfile, AgentRegistry and TenantHandler of omniai/tenancy.py.
--   Gateway/RateLimit, Gateway/Security, Gateway/BodyLimit: TokenBucketRateLimiter,
--     SecurityMiddleware and BodyLimitMiddleware of omniai/gateway/security.py.
--   Gateway/Adapters: the codecs of omniai/gateway/adapters.py.
--   Gateway/Router: dispatch, the routes, the socket (Sockets) and the readiness probe of GatewayRouter
--     in omniai/gateway/router.py.
--   Retrieval: chunk_text (Chunks), the store and the retriever (Store) of omniai/rag/store.py.
--   Gateway/Observability: the middlewares of omniai/gateway/observability.py.
--   Guardrails: PromptGuard of omniai/guardrails/middleware.py; _luhn_valid is in Guardrails/Luhn.
-- Below these stand the modules that prove what the theorems need (Invariant, Trips, Probes,
-- Attempts, Eviction, Persistence, Lifecycle, Rollback, Errors, Restarts, Exclusive, Paths,
-- History, Compiled, Rounds, Budget, Admission, Threshold, Watermark, Users, Cycles, Routing,
-- Turns, Discord, Audit, Sockets, Luhn, Screening, Environment, Ownership, Bounds, Contents,
-- Ranking, Variables, Verdicts, Frontmatter), and in each part a module Tests with runs at concrete
-- inputs.
--
-- Conventions. An object's state is a record that its operations take and return. An exception is
-- the `err` of a result. What is not under omniai is a parameter: the backend and the clock of the
-- engine, the operating system, the chat model, the tools and the nodes of a graph, embeddings,
-- what a learner is given, and the functions `repr`, `str`, `str.lower`, `parse_qs`, `int`,
-- `json.loads`, `str.format`, `string.Formatter`, `str.splitlines`, `random` and compiled regular
-- expressions of Python. Clock readings and sizes are natural numbers, and the rate limiter counts
-- fractions of a token in whole parts; floating-point rounding is not modelled.
--
-- Bounds. `with_retries` runs on its number of attempts and `ainvoke` on `max_iterations`, which are
-- the bounds of the source's loops, so no fuel is added. The watch loop of the supervisor runs over
-- the list of the rounds that it meets. `wait_ready` runs on one more round than
-- its timeout has ticks, and ends within them where a pause takes a tick;
-- `windows` runs on the length of the text that it cuts, and each window shortens it.
--
-- Not modelled: how the gateway installs its middleware; the schemas that tools get from their
-- signatures, and what reads the environment. Logging, tracing and the metrics' instruments only
-- write output.
pub mod Base
pub mod Engine
pub mod Evals
pub mod Gateway
pub mod Graph
pub mod Guardrails
pub mod Memory
pub mod Models
pub mod Prompts
pub mod Protocol
pub mod Retrieval
pub mod Sandbox
pub mod Settings
pub mod Tenancy
