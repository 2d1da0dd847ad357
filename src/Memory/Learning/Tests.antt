-- ===== src/Memory/Learning/Tests.antt =====
-- The learning cycle, at a concrete log and a learner without an engine.
use na_ai.Base.{ℕ, String, ◌≡◌, refl, false, none, some, [], ◌∷◌}
use na_ai.Base.Result.{ok, err}
use na_ai.Protocol.{internal, user, assistant, Role}
use na_ai.Memory.Buffer.{Interaction, new, sorted, insert_sorted, fetch}
use na_ai.Memory.Learning.{deployed, Memory, ContinuousLearner, run_cycle}
use na_ai.Memory.Learning.Cycles.{Kept, run_cycle-Kept}

abbrev row : String → Role → ℕ → Interaction
row id role at = record {
  id = id;
  session_id = "s";
  channel = internal;
  role = role;
  content = id;
  tool_calls = [];
  metadata = [];
  created_at = at;
}

abbrev memory : Memory
memory = record {
  buffer = new (row "answer" assistant 8 ∷ row "question" user 7 ∷ []) none none false;
  history = [];
}

-- A curator that makes a pair of each row, and a training function that always succeeds.
abbrev learner : ContinuousLearner String ℕ
learner = record {
  show = λ v. "value";
  value_error = "ValueError";
  adapter_name = λ w. "adapter";
  train_fn = λ name pairs w. (ok "/adapter", w);
  engine = none;
  evaluator = none;
  curator = some (λ logs w.
      (ok (record { prompt = "p"; completion = "c"; system = none; feedback = none } ∷ []), w));
  mix = none;
  destroy = λ path w. w;
  min_pairs = 1;
  destroy_rejected = false;
  on_report = none;
}

-- The hook of this learner raises on every report.
abbrev failing_hook : ContinuousLearner String ℕ
failing_hook = record learner { on_report = some (λ r w. (err "ValueError", w)) }

raises_after_deployment :
    ((run_cycle failing_hook memory 0).0 ≡ err "ValueError")
    × ((run_cycle failing_hook memory 0).1.buffer.watermark ≡ some 8)
unfolding run_cycle fetch sorted insert_sorted
raises_after_deployment = (refl, refl)

deploys : (run_cycle learner memory 0).0 ≡ ok (deployed "adapter" "/adapter" 1 1)
unfolding run_cycle
deploys = refl

watermark_after : (run_cycle learner memory 0).1.buffer.watermark ≡ some 8
unfolding run_cycle fetch sorted insert_sorted
watermark_after = refl

run_cycle-Kept_example : Kept failing_hook.on_report memory (run_cycle failing_hook memory 0)
run_cycle-Kept_example = run_cycle-Kept failing_hook memory 0
