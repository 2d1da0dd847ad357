-- ===== src/Engine/Supervisor.antt =====
-- The supervisor of omniai/engine/resilience.py. The watch loop runs once for each `Round`, which
-- says what it meets: the stop flag, the process, and how the steps of a restart end. What it does to
-- the engine is the list of its actions; delays are in seconds.
pub mod Restarts
mod Tests
use na_ai.Base.{
  ℕ, zero, suc, ◌+◌, ◌-◌, ◌*◌, ◌/◌, ◌%◌, ◌^◌, ◌≤◌, ◌<◌, min, max, String, ◌≡◌, refl, sym, ap, ◌∙◌,
  ◌≢◌, ◌↔◌, ◌⊎◌, inl, inr, Bool, true, false, ◌&&◌, ◌||◌, not, Option, none, some, List, [], ◌∷◌,
  ◌++◌, map, arith, str_eq, eq_iff, eq_refl, ltb, leb, ◌==◌, if◌then◌else◌, leb→le, le→leb,
  Bool-cases, Option-cases, truthy, opt_eq, length, take, drop, filter, last?, length-append,
  length-filter, length-take, All, All-map, All-filter, opt_eq→eq, opt_eq_refl,
}
use na_ai.Base.Dict.{Dict, lookup}
use na_ai.Engine.Registry.{AdapterRecord, LoraRegistry}

pub record Round : Type 0 where
  pub stopped : Bool
  pub alive : Bool
  pub launches : Bool
  pub ready : Bool
  pub reloads : Bool
  pub lora : LoraRegistry

pub data Action : Type 0 where
  sleep : ℕ → Action
  launch : Action
  reload : String → String → Action

pub record EngineSupervisor : Type 0 where
  pub max_restarts : ℕ
  pub restart_backoff_base : ℕ
  pub restarts : ℕ
  pub failed : Bool
  pub watching : Bool

abbrev pub new : ℕ → ℕ → EngineSupervisor
new max base = record {
  max_restarts = max;
  restart_backoff_base = base;
  restarts = 0;
  failed = false;
  watching = true;
}

-- The `except Exception` of `_watch`.
pub give_up : EngineSupervisor → EngineSupervisor
give_up s = record s { failed = true; watching = false }

-- `min(30.0, self.restart_backoff_base * (2**self.restarts))`
abbrev pub backoff : EngineSupervisor → ℕ
backoff s = min 30 (s.restart_backoff_base * 2 ^ s.restarts)

-- `engine.active_lora and engine.active_lora_path`: what a restart re-applies.
pub data Reapply : Type 0 where
  nothing : Reapply
  adapter : String → String → Reapply
  missing : Reapply

abbrev record_to_reapply : String → Option AdapterRecord → Reapply
record_to_reapply name none = missing
record_to_reapply name (some a) =
    if str_eq name "" || str_eq a.path "" then nothing else adapter name a.path

pub to_reapply : LoraRegistry → Reapply
to_reapply r = elim r.active [
  | none ↦ nothing
  | some a ↦ if str_eq a "" then nothing else record_to_reapply a (lookup a r.loaded)
]

abbrev pub reapplied : Reapply → Bool → EngineSupervisor → EngineSupervisor × List Action
reapplied nothing reloads s = (s, [])
reapplied missing reloads s = (give_up s, [])
reapplied (adapter name path) reloads s = (if reloads then s else give_up s, reload name path ∷ [])

-- `_restart`, with the handler of `_watch` around it.
pub restart : Round → EngineSupervisor → EngineSupervisor × List Action
unfolding give_up to_reapply
restart r s =
    let s' = record s { restarts = s.restarts + 1 } in
    let (s'', acts) = reapplied (to_reapply r.lora) r.reloads s' in
    if not r.launches
    then (give_up s', sleep (backoff s') ∷ launch ∷ [])
    else (if not r.ready
        then (s', sleep (backoff s') ∷ launch ∷ [])
        else (s'', sleep (backoff s') ∷ launch ∷ acts))

-- One turn of the loop in `_watch`, after its sleep.
pub watch_round : Round → EngineSupervisor → EngineSupervisor × List Action
unfolding restart
watch_round r s =
    if not s.watching
    then (s, [])
    else (if r.stopped
        then (record s { watching = false }, [])
        else (if r.alive
            then (s, [])
            else (if leb s.max_restarts s.restarts then (give_up s, []) else restart r s)))

pub watch : List Round → EngineSupervisor → EngineSupervisor × List Action
watch [] s = (s, [])
watch (r ∷ rs) s =
    let (s', acts) = watch_round r s in let (s'', more) = watch rs s' in (s'', acts ++ more)
