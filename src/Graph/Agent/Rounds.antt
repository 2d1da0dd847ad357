-- ===== src/Graph/Agent/Rounds.antt =====
-- The agent ends within its rounds, and how (create_tool_agent).
use na_ai.Base.{
  ℕ, zero, suc, ◌+◌, ◌-◌, ◌*◌, ◌≤◌, ◌<◌, String, ◌≡◌, refl, ap, ◌∙◌, ◌⊎◌, inl, inr, false, ◌&&◌,
  Option, none, some, List, [], ◌∷◌, ◌++◌, arith, str_eq, ltb, if◌then◌else◌, Bool-cases, length,
  last?, last?-snoc,
}
use na_ai.Base.Dict.{insert, lookup-insert}
use na_ai.Base.Result.{Result, ok, err}
use na_ai.Protocol.{OmniMessage}
use na_ai.Graph.State.{State, merge}
use na_ai.Graph.Builder.{Error, raised, Graph, end_name}
use na_ai.Graph.Executor.{merged, routed, next, follow, chosen, advance, loop, ainvoke}
use na_ai.Models.Wire.{WireMessage, omni_to_openai}
use na_ai.Graph.Agent.{
  Tool, ChatResult, steps_of, steps, with_system, is_calling, assistant_message, recorded,
  tool_messages, run_calls, route_last, agent_graph, run_agent,
}
use na_ai.Graph.Executor.Paths.{loop-step, loop-done}

-- The agent's end: the model's last answer asks for no tool, or the steps are used up.
pub record IsAnswered (max_steps : ℕ) (s : State ℕ) : Type 0 where
  pub last : OmniMessage
  pub is_last : last? s.messages ≡ some last
  pub ended : (is_calling last.tool_calls ≡ false) ⊎ (max_steps ≤ steps s)

-- A state that is an answer, or an exception that the caller's model raises on the messages of a
-- state.
abbrev pub Ends :
    {E : Type 0}
    → (List WireMessage → Result E ChatResult)
    → Option String
    → ℕ
    → Result (Error E) (State ℕ)
    → Type 0
Ends generate system_prompt max_steps (ok s) = IsAnswered max_steps s
Ends generate system_prompt max_steps (err (raised x)) =
    (s : State ℕ) × (generate (with_system system_prompt (omni_to_openai s.messages)) ≡ err x)
Ends generate system_prompt max_steps (err _) = ⊥

module _ {E : Type 0} (generate : List WireMessage → Result E ChatResult) (repr : String → String)
    (tools : List Tool) (system_prompt : Option String) (max_steps : ℕ) (index_error : E)
    (new_id : ℕ → String) (now : ℕ → ℕ) where
  abbrev graph : Graph E ℕ
  graph = agent_graph generate repr tools system_prompt max_steps index_error new_id now

  -- The state after a turn of the model, and after the tools have run.
  abbrev turned : State ℕ → ChatResult → State ℕ
  turned s r = record {
    messages =
        s.messages
        ++ (assistant_message generate repr tools system_prompt max_steps index_error new_id now s r
            ∷ []);
    fields = insert "steps" (steps s + 1) s.fields;
  }

  abbrev target_of : State ℕ → ChatResult → String
  target_of s r =
      if is_calling r.tool_calls && ltb (steps s + 1) max_steps then "tools" else end_name

  steps-turned : (s : State ℕ) (r : ChatResult) → steps (turned s r) ≡ steps s + 1
  steps-turned s r = ap steps_of (lookup-insert "steps" "steps" (steps s + 1) s.fields)

  follow-model :
      (u : State ℕ) (m : OmniMessage)
      → last? u.messages ≡ some m
      → follow graph "model" (ok u)
        ≡ ok (if is_calling m.tool_calls && ltb (steps u) max_steps then "tools" else end_name, u)
  unfolding agent_graph next
  follow-model u m e =
      ap
        (λ o.
          chosen
            (routed "model" none (
              route_last generate repr tools system_prompt max_steps index_error new_id now
                (steps u) o))
            u)
        e

  advance-model :
      (s : State ℕ) (r : ChatResult)
      → generate (with_system system_prompt (omni_to_openai s.messages)) ≡ ok r
      → advance graph "model" s ≡ ok (target_of s r, turned s r)
  unfolding advance agent_graph merge
  advance-model s r e =
      ap
        (λ x. follow graph "model" (
          merged (recorded generate repr tools system_prompt max_steps index_error new_id now s x)
            s))
        e
      ∙ follow-model (turned s r) _ (last?-snoc s.messages _)
      ∙ ap
          (λ (n : ℕ).
            ok (
              if is_calling r.tool_calls && ltb n max_steps then "tools" else end_name,
              turned s r,
            ))
          (steps-turned s r)

  advance-model-raised :
      (s : State ℕ) (x : E)
      → generate (with_system system_prompt (omni_to_openai s.messages)) ≡ err x
      → advance graph "model" s ≡ err (raised x)
  unfolding advance agent_graph
  advance-model-raised s x e =
      ap
        (λ y. follow graph "model" (
          merged (recorded generate repr tools system_prompt max_steps index_error new_id now s y)
            s))
        e

  advance-tools :
      (s : State ℕ) (m : OmniMessage)
      → last? s.messages ≡ some m
      → (u : State ℕ) × (advance graph "tools" s ≡ ok ("model", u)) × (steps u ≡ steps s)
  unfolding advance agent_graph merge next
  advance-tools s m e = (
    record {
      messages =
          s.messages
          ++ tool_messages generate repr tools system_prompt max_steps index_error new_id now m
              (length s.messages) m.tool_calls;
      fields = s.fields;
    },
    ap
        (λ o. follow graph "tools" (
          merged
            (run_calls generate repr tools system_prompt max_steps index_error new_id now
              (length s.messages) o)
            s))
        e,
    refl,
  )

  -- A round at a node that leads on, or that raises.
  loop-move :
      (k : ℕ) (c t : String) (s u : State ℕ)
      → str_eq c end_name ≡ false
      → advance graph c s ≡ ok (t, u)
      → loop graph (suc k) c s ≡ loop graph k t u
  loop-move k c t s u no_end e =
      loop-step graph k c s no_end
      ∙ ap (λ r. elim r [ ok (t', u') ↦ loop graph k t' u' | err x ↦ err x ]) e

  loop-raised :
      (k : ℕ) (s : State ℕ) (x : E)
      → advance graph "model" s ≡ err (raised x)
      → loop graph (suc k) "model" s ≡ err (raised x)
  loop-raised k s x e =
      loop-step graph k "model" s refl
      ∙ ap (λ r. elim r [ ok (t', u') ↦ loop graph k t' u' | err y ↦ err y ]) e

  answered-Ends :
      (k : ℕ) (s : State ℕ) (r : ChatResult)
      → (is_calling r.tool_calls && ltb (steps s + 1) max_steps) ≡ false
      → Ends generate system_prompt max_steps (loop graph k end_name (turned s r))
  answered-Ends k s r h = rw (loop-done graph k end_name (turned s r) refl) (record {
    last = assistant_message generate repr tools system_prompt max_steps index_error new_id now s r;
    is_last = last?-snoc s.messages _;
    ended = ground (arith, steps-turned s r);
  })

  turn-Ends :
      (k : ℕ) (s : State ℕ) (r : ChatResult)
      → (steps s + 1 < max_steps
          → Ends generate system_prompt max_steps (loop graph k "tools" (turned s r)))
      → Ends generate system_prompt max_steps (loop graph k (target_of s r) (turned s r))
  turn-Ends k s r more =
      elim (Bool-cases (is_calling r.tool_calls && ltb (steps s + 1) max_steps)) [
        | inl calls ↦ rw calls (more (ground arith))
        | inr done ↦ rw done (answered-Ends k s r done)
      ]

  model-Ends :
      (k : ℕ) (s : State ℕ)
      → ((r : ChatResult)
          → steps s + 1 < max_steps
          → Ends generate system_prompt max_steps (loop graph k "tools" (turned s r)))
      → Ends generate system_prompt max_steps (loop graph (suc k) "model" s)
  model-Ends k s more = go (generate (with_system system_prompt (omni_to_openai s.messages))) refl
    where
      go :
          (a : Result E ChatResult)
          → generate (with_system system_prompt (omni_to_openai s.messages)) ≡ a
          → Ends generate system_prompt max_steps (loop graph (suc k) "model" s)
      go (ok r) e =
          rw (loop-move k "model" _ s _ refl (advance-model s r e)) (turn-Ends k s r (more r))
      go (err x) e = rw (loop-raised k s x (advance-model-raised s x e)) (s, e)

  loop-Ends :
      (k : ℕ) (s : State ℕ)
      → 2 * (max_steps - steps s) + 1 ≤ k
      → Ends generate system_prompt max_steps (loop graph k "model" s)
  loop-Ends zero s h = absurd (omega arith)
  loop-Ends (suc zero) s h = model-Ends zero s (λ r room. absurd (omega arith))
  loop-Ends (suc (suc k)) s h = model-Ends (suc k) s (λ r room.
      let (u, e, same) = advance-tools (turned s r) _ (last?-snoc s.messages _) in
      rw (loop-move k "tools" "model" (turned s r) u refl e)
        (loop-Ends k u (omega (arith, same, steps-turned s r))))

  -- Whatever the model answers and the tools return, the agent never runs out of its graph's rounds:
  -- it returns a state whose last message asks for no tool or whose step count
  -- has reached `max_steps`, or it passes on an exception that the model raises on the messages of
  -- a state, and no other: unknown tools and failing tools do not make it raise.
  pub run_agent-Ends :
      (s : State ℕ)
      → Ends generate system_prompt max_steps
          (run_agent generate repr tools system_prompt max_steps index_error new_id now s)
  unfolding run_agent ainvoke
  run_agent-Ends s = loop-Ends (2 * max_steps + 2) s (omega arith)
