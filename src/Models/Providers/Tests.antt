-- ===== src/Models/Providers/Tests.antt =====
-- Answers of the providers, at concrete data.
use na_ai.Base.{◌≡◌, refl, none, some, [], ◌∷◌}
use na_ai.Models.Providers.Claude.{texts_of, calls_of, text_reply, use_reply, other_reply}

reply_text :
    texts_of (
      text_reply (some "a")
      ∷ use_reply none (some "f") none
      ∷ other_reply
      ∷ text_reply (some "b")
      ∷ [])
    ≡ "ab"
reply_text = refl

reply_calls :
    calls_of (text_reply (some "a") ∷ use_reply none (some "f") none ∷ [])
    ≡ record { id = ""; name = "f"; arguments = "{}" } ∷ []
reply_calls = refl
