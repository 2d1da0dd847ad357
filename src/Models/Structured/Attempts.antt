-- ===== src/Models/Structured/Attempts.antt =====
-- How often the model is asked, and what its answer is worth (StructuredOutput.invoke).
use na_ai.Base.{Bool, ℕ, zero, suc, ◌+◌, ◌≤◌, String, ◌≡◌, refl, List, [], ◌∷◌, arith, length, All}
use na_ai.Base.Result.{Result, ok, err}
use na_ai.Models.Structured.{
  Message, Failure, model_raised, exhausted, extract_json, judged, attempted, attempt, invoke,
}
use Prim.Native.Char.{Char}

module _ {W T X : Type 0} (is_space : Char → Bool)
    (generate : List Message → W → Result X String × W) (validate : String → Result String T) where
  -- The model, with a log of what its calls resulted in, the last call first.
  abbrev pub logged :
      List Message → W × List (Result X String) → Result X String × (W × List (Result X String))
  logged conversation (w, log) = let (r, w') = generate conversation w in (r, (w', r ∷ log))

  -- A call that returned a reply which the schema refuses.
  abbrev pub IsRefused : Result X String → Type 0
  IsRefused (ok reply) = (problem : String) × (validate (extract_json is_space reply) ≡ err problem)
  IsRefused (err x) = ⊥

  -- What a result says of the log `now`, with `n` calls made and `left` more allowed before it.
  abbrev pub Ended : Result (Failure X) T → (n left : ℕ) → (now : List (Result X String)) → Type 0
  Ended (ok t) n left now =
      (length now ≤ n + left)
      × ((reply : String) × (before : List (Result X String)) × (now ≡ ok reply ∷ before)
          × All IsRefused before
          × (validate (extract_json is_space reply) ≡ ok t))
  Ended (err (model_raised x)) n left now =
      (length now ≤ n + left)
      × ((before : List (Result X String)) × (now ≡ err x ∷ before) × All IsRefused before)
  Ended (err (exhausted e)) n left now = (length now ≡ n + left) × All IsRefused now

  Ended-later :
      (r : Result (Failure X) T) (n left : ℕ) (now : List (Result X String))
      → Ended r (suc n) left now
      → Ended r n (suc left) now
  Ended-later (ok t) n left now h = (omega (arith, h.0), h.1)
  Ended-later (err (model_raised x)) n left now h = (omega (arith, h.0), h.1)
  Ended-later (err (exhausted e)) n left now h = (omega (arith, h.0), h.1)

  -- What the rounds behind a round have to satisfy.
  abbrev LaterEnds :
      ℕ
      → (String
          → List Message
          → W × List (Result X String)
          → Result (Failure X) T × (W × List (Result X String)))
      → Type 0
  LaterEnds left rest =
      (e : String) (c : List Message) (v : W) (log : List (Result X String))
      → All IsRefused log
      → Ended (rest e c (v, log)).0 (length log) left (rest e c (v, log)).1.1

  judged-Ended :
      (v : Result String T) (reply : String) (conversation : List Message) (w : W) (left : ℕ)
      (log : List (Result X String))
      (rest : String
        → List Message
        → W × List (Result X String)
        → Result (Failure X) T × (W × List (Result X String)))
      → validate (extract_json is_space reply) ≡ v
      → LaterEnds left rest
      → All IsRefused log
      → Ended
          (judged is_space logged validate v reply conversation (w, ok reply ∷ log) rest).0
          (length log)
          (suc left)
          (judged is_space logged validate v reply conversation (w, ok reply ∷ log) rest).1.1
  judged-Ended (ok t) reply conversation w left log rest e ih refused =
      (omega arith, (reply, log, refl, refused, e))
  judged-Ended (err problem) reply conversation w left log rest e ih refused =
      Ended-later (rest problem _ (w, ok reply ∷ log)).0 (length log) left _
        (ih problem _ w (ok reply ∷ log) ((problem, e), refused))

  attempted-Ended :
      (r : Result X String × W) (conversation : List Message) (left : ℕ)
      (log : List (Result X String))
      (rest : String
        → List Message
        → W × List (Result X String)
        → Result (Failure X) T × (W × List (Result X String)))
      → LaterEnds left rest
      → All IsRefused log
      → Ended
          (attempted is_space logged validate (r.0, (r.1, r.0 ∷ log)) conversation rest).0
          (length log)
          (suc left)
          (attempted is_space logged validate (r.0, (r.1, r.0 ∷ log)) conversation rest).1.1
  attempted-Ended (err x, w) conversation left log rest ih refused =
      (omega arith, (log, refl, refused))
  attempted-Ended (ok reply, w) conversation left log rest ih refused =
      judged-Ended (validate (extract_json is_space reply)) reply conversation w left log rest refl
        ih refused

  attempt-Ended :
      (left : ℕ) (e : String) (conversation : List Message) (w : W) (log : List (Result X String))
      → All IsRefused log
      → Ended
          (attempt is_space logged validate left e conversation (w, log)).0
          (length log)
          left
          (attempt is_space logged validate left e conversation (w, log)).1.1
  unfolding attempt
  attempt-Ended zero e conversation w log refused = (omega arith, refused)
  attempt-Ended (suc left) e conversation w log refused =
      attempted-Ended (generate conversation w) conversation left log
        (attempt is_space logged validate left) (λ e' c v l h. attempt-Ended left e' c v l h)
        refused

  -- The model is asked at most once more than `max_retries`. What is returned is what the schema
  -- makes of the JSON in the model's last reply; an exception of the model's last call is passed on;
  -- in both cases the schema refused every earlier reply. The error for invalid replies comes after
  -- exactly that many calls, all of whose replies the schema refused.
  pub invoke-Ended :
      (max_retries : ℕ) (instruction : Message) (messages : List Message) (w : W)
      → Ended
          (invoke is_space logged validate max_retries instruction messages (w, [])).0
          0
          (suc max_retries)
          (invoke is_space logged validate max_retries instruction messages (w, [])).1.1
  unfolding invoke
  invoke-Ended max_retries instruction messages w =
      attempt-Ended (suc max_retries) "no attempts made" (instruction ∷ messages) w [] tt
