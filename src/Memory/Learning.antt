-- ===== src/Memory/Learning.antt =====
-- The learning cycle of omniai/memory/learning.py (ContinuousLearner). The curator, the golden
-- data's mix, the training function, the evaluator, the serving engine and the hook for reports are
-- the caller's: they act on a world `W` and may raise an exception of type `E`. The log itself does
-- not fail. Each cycle runs alone, under its lock; messages that are logged while it runs are not
-- part of the model.
pub mod Cycles
mod Tests
use na_ai.Base.{
  ℕ, String, Bool, true, false, Option, none, some, List, [], ◌∷◌, ◌++◌, ltb, if◌then◌else◌, length,
}
use na_ai.Base.Result.{Result, ok, err}
use na_ai.Protocol.{Value}
use na_ai.Memory.Buffer.{Interaction, InteractionBuffer, ready, fetch, set_watermark}
use na_ai.Memory.Buffer.Watermark.{latest}
use na_ai.Memory.Pairs.{Pair, format_training_pairs}

pub data Report : Type 0 where
  skipped : ℕ → Report
  rejected : String → Report
  deployed : String → String → ℕ → ℕ → Report

abbrev pub max_created_at : List Interaction → Option ℕ
max_created_at [] = none
max_created_at (r ∷ rs) = some (latest (r ∷ rs))

abbrev pub consumed : Option ℕ → InteractionBuffer → InteractionBuffer
consumed none b = b
consumed (some t) b = set_watermark t b

-- The learner's own state.
pub record Memory : Type 0 where
  pub buffer : InteractionBuffer
  pub history : List Report

abbrev pub report : Report → Memory → Memory
report r m = record m { history = m.history ++ (r ∷ []) }

module _ (E W : Type 0) where
  abbrev pub Action : Type 0 → Type 0
  Action A = W → Result E A × W

  -- What the learner uses of an engine; an older engine has no `activate_lora`.
  pub record Engine : Type 0 where
    pub system_prompt : Option String
    pub load_lora_adapter : String → String → Bool → W → Result E (Unit {0}) × W
    pub activate_lora : Option (String → W → Result E (Unit {0}) × W)
    pub unload_lora_adapter : Option (String → W → Result E (Unit {0}) × W)

  pub record ContinuousLearner : Type 0 where
    pub show : Value → String
    pub value_error : E
    pub adapter_name : W → String
    pub train_fn : String → List Pair → W → Result E String × W
    pub engine : Option Engine
    pub evaluator : Option (String → String → W → Result E Bool × W)
    pub curator : Option (List Interaction → W → Result E (List Pair) × W)
    pub mix : Option (List Pair → W → Result E (List Pair) × W)
    pub destroy : String → W → W
    pub min_pairs : ℕ
    pub destroy_rejected : Bool
    pub on_report : Option (Report → W → Result E (Unit {0}) × W)

module _ {E W : Type 0} where
  -- `await` of an action, and what comes after it.
  abbrev pub and_then : {A B : Type 0} → Result E A × W → (A → Action E W B) → Result E B × W
  and_then (ok a, w) k = k a w
  and_then (err x, w) k = (err x, w)

  abbrev pub engine_prompt : Option (Engine E W) → Option String
  engine_prompt none = none
  engine_prompt (some e) = e.system_prompt

  -- `_build_pairs`
  abbrev pub build_pairs :
      ContinuousLearner E W
      → Option (List Interaction → Action E W (List Pair))
      → List Interaction
      → Action E W (List Pair)
  build_pairs l none logs w = (ok (format_training_pairs l.show logs (engine_prompt l.engine)), w)
  build_pairs l (some curate) logs w = curate logs w

  abbrev pub mixed :
      Option (List Pair → Action E W (List Pair)) → List Pair → Action E W (List Pair)
  mixed none pairs w = (ok pairs, w)
  mixed (some f) pairs w = f pairs w

  -- `LoRATrainer.train`: the adapter's name and path.
  abbrev pub train : ContinuousLearner E W → List Pair → Action E W (String × String)
  train l [] w = (err l.value_error, w)
  train l (p ∷ ps) w =
      let name = l.adapter_name w in
      and_then (l.train_fn name (p ∷ ps) w) (λ path w'. (ok (name, path), w'))

  abbrev pub activated :
      Engine E W → String → String → Option (String → Action E W (Unit {0})) → Action E W Bool
  activated e name path none w =
      and_then (e.load_lora_adapter name path true w) (λ u w'. (ok true, w'))
  activated e name path (some activate) w = and_then (activate name w) (λ u w'. (ok true, w'))

  abbrev pub unloaded : String → Option (String → Action E W (Unit {0})) → Action E W (Unit {0})
  unloaded name none w = (ok tt, w)
  unloaded name (some unload) w = unload name w

  abbrev pub judged : ContinuousLearner E W → Engine E W → String → String → Bool → Action E W Bool
  judged l e name path true w = activated e name path e.activate_lora w
  judged l e name path false w =
      and_then (unloaded name e.unload_lora_adapter w)
        (λ u w'. (ok false, if l.destroy_rejected then l.destroy path w' else w'))

  -- `_shadow_gate`
  abbrev pub shadow_gate :
      ContinuousLearner E W
      → Engine E W
      → (String → String → Action E W Bool)
      → String
      → String
      → Action E W Bool
  shadow_gate l e evaluate name path w =
      and_then (e.load_lora_adapter name path false w) (λ u w'.
        and_then (evaluate name path w') (λ accepted w''. judged l e name path accepted w''))

  -- What becomes of a trained adapter: gated, loaded at once, or left alone.
  abbrev pub serve :
      ContinuousLearner E W
      → Option (Engine E W)
      → Option (String → String → Action E W Bool)
      → String
      → String
      → Action E W Bool
  serve l none evaluator name path w = (ok true, w)
  serve l (some e) none name path w =
      and_then (e.load_lora_adapter name path true w) (λ u w'. (ok true, w'))
  serve l (some e) (some evaluate) name path w = shadow_gate l e evaluate name path w

  abbrev pub served : ContinuousLearner E W → ℕ → ℕ → String × String → Action E W Report
  served l pairs new_pairs (name, path) w =
      and_then (serve l l.engine l.evaluator name path w) (λ accepted w'.
        (ok (if accepted then deployed name path pairs new_pairs else rejected name), w'))

  abbrev pub trained : ContinuousLearner E W → ℕ → List Pair → Action E W Report
  trained l new_pairs pairs w =
      and_then (train l pairs w) (λ adapter w'. served l (length pairs) new_pairs adapter w')

  -- The cycle between its fetch and its report.
  abbrev pub cycle_on : ContinuousLearner E W → List Pair → Action E W Report
  cycle_on l pairs w =
      if ltb (length pairs) l.min_pairs
      then (ok (skipped (length pairs)), w)
      else and_then (mixed l.mix pairs w) (λ more w'. trained l (length pairs) more w')

  -- `_report`: the report is in the history also where the hook raises.
  abbrev pub announced : Report → Memory → Result E (Unit {0}) × W → Result E Report × Memory × W
  announced r m (ok u, w) = (ok r, m, w)
  announced r m (err x, w) = (err x, m, w)

  abbrev pub delivered :
      Option (Report → Action E W (Unit {0})) → Report → Memory → W → Result E Report × Memory × W
  delivered none r m w = (ok r, report r m, w)
  delivered (some on_report) r m w = announced r (report r m) (on_report r w)

  -- The watermark is set before a deployment is reported, and only then.
  abbrev pub finish :
      Option (Report → Action E W (Unit {0}))
      → List Interaction
      → Memory
      → Result E Report × W
      → Result E Report × Memory × W
  finish on_report logs m (err x, w) = (err x, m, w)
  finish on_report logs m (ok (deployed name path n k), w) =
      delivered on_report (deployed name path n k)
        (record m { buffer = consumed (max_created_at logs) m.buffer }) w
  finish on_report logs m (ok r, w) = delivered on_report r m w

  -- `run_cycle`
  unfoldable pub run_cycle : ContinuousLearner E W → Memory → W → Result E Report × Memory × W
  run_cycle l m w =
      let b = ready m.buffer in
      let logs = fetch none none b.watermark b in
      finish l.on_report logs (record m { buffer = b })
        (and_then (build_pairs l l.curator logs w) (λ pairs w'. cycle_on l pairs w'))
