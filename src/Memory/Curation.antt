-- ===== src/Memory/Curation.antt =====
-- The screening of training pairs in omniai/memory/curation.py (InteractionJudge). The judge is the
-- caller's: it scores a pair or raises. Scores are natural numbers of some small part, as is the
-- least score; `str.lower` is the parameter `lower`.
pub mod Scores
mod Tests
use na_ai.Base.{
  ℕ, ◌≤◌, ◌<◌, String, ◌≡◌, refl, ap, ◌⊎◌, inl, inr, Bool, true, false, ◌||◌, Option, none, some,
  List, [], ◌∷◌, arith, str_eq, leb, leb→le, if◌then◌else◌, Bool-cases,
}
use na_ai.Base.Result.{Result, ok, err}
use na_ai.Protocol.{Value}
use na_ai.Memory.Buffer.{Interaction}
use na_ai.Memory.Pairs.{Pair, format_training_pairs}
use mathlib.Core.Path.{subst}

-- `_feedback`
abbrev pub feedback_text : (String → String) → Option String → Option String
feedback_text lower none = none
feedback_text lower (some s) = some (lower s)

abbrev pub is_negative : Option String → Bool
is_negative none = false
is_negative (some s) = str_eq s "negative" || (str_eq s "thumbs_down" || str_eq s "bad")

abbrev pub is_positive : Option String → Bool
is_positive none = false
is_positive (some s) = str_eq s "positive" || (str_eq s "thumbs_up" || str_eq s "good")

-- `{"prompt": pair["prompt"], "completion": pair["completion"]}`
abbrev pub bare : Pair → Pair
bare p = record { prompt = p.prompt; completion = p.completion; system = none; feedback = none }

module _ {E W : Type 0} (lower : String → String) (judge : String → String → W → Result E ℕ × W)
    (min_score : ℕ) where
  abbrev pub keep_if : Bool → Pair → Result E (List Pair) × W → Result E (List Pair) × W
  keep_if keep p (err x, w) = (err x, w)
  keep_if true p (ok ps, w) = (ok (bare p ∷ ps), w)
  keep_if false p (ok ps, w) = (ok ps, w)

  abbrev pub scored :
      Pair → Result E ℕ × W → (W → Result E (List Pair) × W) → Result E (List Pair) × W
  scored p (err x, w) rest = (err x, w)
  scored p (ok s, w) rest = keep_if (leb min_score s) p (rest w)

  -- One candidate: its feedback decides, or else the judge, who is asked only then.
  abbrev pub screen : Pair → W → (W → Result E (List Pair) × W) → Result E (List Pair) × W
  screen p w rest =
      if is_negative (feedback_text lower p.feedback)
      then keep_if false p (rest w)
      else (if is_positive (feedback_text lower p.feedback)
          then keep_if true p (rest w)
          else scored p (judge p.prompt p.completion w) rest)

  pub screen_all : List Pair → W → Result E (List Pair) × W
  screen_all [] w = (ok [], w)
  screen_all (p ∷ ps) w = screen p w (screen_all ps)

  -- `curate`
  unfoldable pub curate : (Value → String) → List Interaction → W → Result E (List Pair) × W
  unfolding screen_all
  curate show logs w = screen_all (format_training_pairs show logs none) w

  -- Why a pair may be kept: its feedback is not negative, and it is positive or the judge gave it
  -- the least score or more.
  pub record IsKeepable (p : Pair) : Type 0 where
    pub not_negative : is_negative (feedback_text lower p.feedback) ≡ false
    pub reason :
        (is_positive (feedback_text lower p.feedback) ≡ true)
        ⊎ ((w : W) × (s : ℕ) × ((judge p.prompt p.completion w).0 ≡ ok s) × (min_score ≤ s))

  -- Why a pair may be dropped: its feedback is negative, or it is not positive and the judge gave it
  -- less than the least score.
  abbrev pub IsDroppable : Pair → Type 0
  IsDroppable p =
      (is_negative (feedback_text lower p.feedback) ≡ true)
      ⊎ ((is_positive (feedback_text lower p.feedback) ≡ false)
          × ((w : W) × (s : ℕ) × ((judge p.prompt p.completion w).0 ≡ ok s) × (s < min_score)))

  -- The second list is some of the first, in order, without what the trainer does not use.
  pub data Screened : List Pair → List Pair → Type 0 where
    done : Screened [] []
    dropped : {p : Pair} {ps ks : List Pair} → IsDroppable p → Screened ps ks → Screened (p ∷ ps) ks
    kept :
        {p : Pair} {ps ks : List Pair}
        → IsKeepable p
        → Screened ps ks
        → Screened (p ∷ ps) (bare p ∷ ks)

  -- What is returned has been screened; an exception promises nothing.
  abbrev pub IsScreened : List Pair → Result E (List Pair) × W → Type 0
  IsScreened ps (ok ks, w) = Screened ps ks
  IsScreened ps (err x, w) = Unit

  keep_if-IsScreened :
      (b : Bool) (p : Pair) (ps : List Pair) (r : Result E (List Pair) × W)
      → (b ≡ true → IsKeepable p)
      → (b ≡ false → IsDroppable p)
      → IsScreened ps r
      → IsScreened (p ∷ ps) (keep_if b p r)
  keep_if-IsScreened b p ps (err x, w) why out h = tt
  keep_if-IsScreened true p ps (ok ks, w) why out h = kept (why refl) h
  keep_if-IsScreened false p ps (ok ks, w) why out h = dropped (out refl) h

  scored-IsScreened :
      (p : Pair) (ps : List Pair) (w : W) (r : Result E ℕ × W) (rest : W → Result E (List Pair) × W)
      → is_negative (feedback_text lower p.feedback) ≡ false
      → is_positive (feedback_text lower p.feedback) ≡ false
      → judge p.prompt p.completion w ≡ r
      → ((v : W) → IsScreened ps (rest v))
      → IsScreened (p ∷ ps) (scored p r rest)
  scored-IsScreened p ps w (err x, v) rest fine neutral e h = tt
  scored-IsScreened p ps w (ok s, v) rest fine neutral e h =
      keep_if-IsScreened (leb min_score s) p ps (rest v)
        (λ enough. record {
          not_negative = fine;
          reason = inr (w, s, ap (λ x. x.0) e, leb→le min_score s enough);
        })
        (λ little. inr (neutral, (w, s, ap (λ x. x.0) e, ground arith))) (h v)

  screen_all-IsScreened : (ps : List Pair) (w : W) → IsScreened ps (screen_all ps w)
  unfolding screen_all
  screen_all-IsScreened [] w = done
  screen_all-IsScreened (p ∷ ps) w =
      elim (Bool-cases (is_negative (feedback_text lower p.feedback))) [
        | inl bad ↦ rw bad (
            keep_if-IsScreened false p ps (screen_all ps w) (λ e. absurd (cc)) (λ e. inl bad)
              (screen_all-IsScreened ps w))
        | inr fine ↦ rw fine (elim (Bool-cases (is_positive (feedback_text lower p.feedback))) [
          | inl good ↦ rw good (
              keep_if-IsScreened true p ps (screen_all ps w)
                (λ e. record { not_negative = fine; reason = inl good }) (λ e. absurd (cc))
                (screen_all-IsScreened ps w))
          | inr neutral ↦ rw neutral (
              scored-IsScreened p ps w (judge p.prompt p.completion w) (screen_all ps) fine neutral
                refl (screen_all-IsScreened ps))
        ])
      ]

  -- Unless the judge raises, the curated pairs are some of the formatted ones, in their order, and
  -- none of them has negative feedback: each has positive feedback, or the judge has given it the
  -- least score or more. The pairs left out have negative feedback, or the judge has given them
  -- less.
  pub curate-IsScreened :
      (show : Value → String) (logs : List Interaction) (w : W)
      → IsScreened (format_training_pairs show logs none) (curate show logs w)
  unfolding curate
  curate-IsScreened show logs w = screen_all-IsScreened (format_training_pairs show logs none) w
