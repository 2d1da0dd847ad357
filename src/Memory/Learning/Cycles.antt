-- ===== src/Memory/Learning/Cycles.antt =====
-- What a cycle does to the log's watermark (ContinuousLearner.run_cycle).
use na_ai.Base.{
  ℕ, String, ◌≡◌, refl, sym, ap, ◌∙◌, ◌⊎◌, inl, inr, Bool, true, false, Option, none, some, List,
  [], ◌∷◌, ◌++◌, last?, last?-snoc,
}
use na_ai.Base.Result.{Result, ok, err}
use na_ai.Memory.Buffer.{Interaction, InteractionBuffer, ready, sorted, fetch}
use na_ai.Memory.Buffer.Watermark.{latest, fetch-all, fetch_twice}
use na_ai.Memory.Learning.{
  Report, skipped, rejected, deployed, max_created_at, consumed, Memory, report, Action,
  ContinuousLearner, and_then, build_pairs, cycle_on, announced, delivered, finish, run_cycle,
}

-- The rows that a cycle would train on.
abbrev pub unread : Memory → List Interaction
unread m = fetch none none m.buffer.watermark m.buffer

abbrev pub is_deployed : Report → Bool
is_deployed (deployed name path n k) = true
is_deployed _ = false

-- After a deployment the log has no row that the next cycle would train on; after another report the
-- watermark is as before.
abbrev pub Settled : Report → Memory → Memory → Type 0
Settled (deployed name path n k) m m' = unread m' ≡ []
Settled (skipped n) m m' = m'.buffer.watermark ≡ m.buffer.watermark
Settled (rejected name) m m' = m'.buffer.watermark ≡ m.buffer.watermark

-- The hook raised when it was given the report of a deployment.
abbrev pub DeploymentRaised :
    {E W : Type 0} → Option (Report → Action E W (Unit {0})) → List Report → E → W → Type 0
DeploymentRaised none history x w = ⊥
DeploymentRaised {W = W} (some on_report) history x w =
    (r : Report) × (v : W) × (is_deployed r ≡ true)
    × (on_report r v ≡ (err x, w))
    × (last? history ≡ some r)

-- What a cycle that has ended leaves of the watermark, the rows and the history.
abbrev pub Kept :
    {E W : Type 0}
    → Option (Report → Action E W (Unit {0}))
    → Memory
    → Result E Report × Memory × W
    → Type 0
Kept on_report m (ok r, m', w) =
    (m'.buffer.rows ≡ m.buffer.rows) × (m'.history ≡ m.history ++ (r ∷ [])) × Settled r m m'
Kept on_report m (err x, m', w) =
    (m'.buffer.rows ≡ m.buffer.rows)
    × ((m'.buffer.watermark ≡ m.buffer.watermark)
        ⊎ (DeploymentRaised on_report m'.history x w × (unread m' ≡ [])))

fetch-consumed :
    (b : InteractionBuffer) (logs : List Interaction)
    → fetch none none b.watermark b ≡ logs
    → (fetch none none
          (consumed (max_created_at logs) b).watermark
          (consumed (max_created_at logs) b)
        ≡ [])
unfolding sorted
fetch-consumed b logs e = elim (fetch_twice b.watermark b) [
  | inl empty ↦ rw (sym e ∙ empty) empty
  | inr (s, ss, q, late) ↦
      rw (sym e ∙ q)
        (fetch-all (some (latest (s ∷ ss))) (consumed (some (latest (s ∷ ss))) b) ∙ ap sorted late)
]

consumed-rows : (o : Option ℕ) (b : InteractionBuffer) → (consumed o b).rows ≡ b.rows
consumed-rows none b = refl
consumed-rows (some t) b = refl

module _ {E W : Type 0} where
  -- A report of a deployment, from the memory whose watermark is set.
  deployed-Kept :
      (on_report : Option (Report → Action E W (Unit {0}))) (m set : Memory) (name path : String)
      (n k : ℕ) (w : W)
      → unread set ≡ []
      → set.buffer.rows ≡ m.buffer.rows
      → set.history ≡ m.history
      → Kept on_report m (delivered on_report (deployed name path n k) set w)
  deployed-Kept none m set name path n k w e rows same =
      (rows, ap (λ h. h ++ (deployed name path n k ∷ [])) same, e)
  deployed-Kept (some on_report) m set name path n k w e rows same =
      go (on_report (deployed name path n k) w) refl
    where
      go :
          (a : Result E (Unit {0}) × W)
          → on_report (deployed name path n k) w ≡ a
          → Kept
              (some on_report)
              m
              (announced (deployed name path n k) (report (deployed name path n k) set) a)
      go (ok u, v) q = (rows, ap (λ h. h ++ (deployed name path n k ∷ [])) same, e)
      go (err x, v) q =
          (rows, inr ((deployed name path n k, w, refl, q, last?-snoc set.history _), e))

  skipped-Kept :
      (on_report : Option (Report → Action E W (Unit {0}))) (m : Memory) (n : ℕ) (w : W)
      → Kept on_report m (delivered on_report (skipped n) m w)
  skipped-Kept none m n w = (refl, refl, refl)
  skipped-Kept (some on_report) m n w = go (on_report (skipped n) w)
    where
      go :
          (a : Result E (Unit {0}) × W)
          → Kept (some on_report) m (announced (skipped n) (report (skipped n) m) a)
      go (ok u, v) = (refl, refl, refl)
      go (err x, v) = (refl, inl refl)

  rejected-Kept :
      (on_report : Option (Report → Action E W (Unit {0}))) (m : Memory) (name : String) (w : W)
      → Kept on_report m (delivered on_report (rejected name) m w)
  rejected-Kept none m name w = (refl, refl, refl)
  rejected-Kept (some on_report) m name w = go (on_report (rejected name) w)
    where
      go :
          (a : Result E (Unit {0}) × W)
          → Kept (some on_report) m (announced (rejected name) (report (rejected name) m) a)
      go (ok u, v) = (refl, refl, refl)
      go (err x, v) = (refl, inl refl)

  finish-Kept :
      (on_report : Option (Report → Action E W (Unit {0}))) (m : Memory) (logs : List Interaction)
      (r : Result E Report × W)
      → unread m ≡ logs
      → Kept on_report m (finish on_report logs m r)
  finish-Kept on_report m logs (err x, w) e = (refl, inl refl)
  finish-Kept on_report m logs (ok (skipped n), w) e = skipped-Kept on_report m n w
  finish-Kept on_report m logs (ok (rejected name), w) e = rejected-Kept on_report m name w
  finish-Kept on_report m logs (ok (deployed name path n k), w) e =
      deployed-Kept on_report m (record m { buffer = consumed (max_created_at logs) m.buffer }) name
        path n k w (fetch-consumed m.buffer logs e) (consumed-rows (max_created_at logs) m.buffer)
        refl

  -- Counting the rows first changes nothing that `Kept` speaks of.
  ready-Kept :
      (on_report : Option (Report → Action E W (Unit {0}))) (m : Memory)
      (r : Result E Report × Memory × W)
      → Kept on_report (record m { buffer = ready m.buffer }) r
      → Kept on_report m r
  ready-Kept on_report m (ok (skipped n), m', w) h = h
  ready-Kept on_report m (ok (rejected name), m', w) h = h
  ready-Kept on_report m (ok (deployed name path n k), m', w) h = h
  ready-Kept on_report m (err x, m', w) h = h

-- However the curator, the training, the evaluator, the engine and the report hook behave, no row of
-- the log changes. When a cycle returns the report of a deployment, the log as it stands has no row
-- after the new watermark, so that another fetch finds none; when it returns that it skipped or
-- rejected, the watermark is as before; in each case this report is added to the history. When it
-- raises, the watermark is as before, except where the report hook raised on a deployment: then that
-- report is the last of the history and another fetch finds no row.
pub run_cycle-Kept :
    {E W : Type 0} (l : ContinuousLearner E W) (m : Memory) (w : W)
    → Kept l.on_report m (run_cycle l m w)
unfolding run_cycle
run_cycle-Kept l m w =
    let b = ready m.buffer in
    let logs = fetch none none b.watermark b in
    ready-Kept l.on_report m _ (
      finish-Kept l.on_report (record m { buffer = b }) logs
        (and_then (build_pairs l l.curator logs w) (λ pairs w'. cycle_on l pairs w')) refl)
