-- ===== src/Gateway/Router/Audit.antt =====
-- What the observers see of a message (GatewayRouter.dispatch).
use na_ai.Base.{String, ◌≡◌, refl, sym, ap, ◌∙◌, List, [], ◌∷◌, ◌++◌, map}
use na_ai.Base.Result.{Result, ok, err}
use na_ai.Protocol.{OmniMessage}
use na_ai.Gateway.Router.{Failure, Interceptor, Observer, and_then, intercepted, notify, dispatch}
use mathlib.Core.List.{append-nil, append_assoc}

-- What was noted: who saw which message.
abbrev pub Notes : Type 0
Notes = List (String × OmniMessage)

abbrev pub seen : List String → OmniMessage → Notes
seen names m = map (λ name. (name, m)) names

module _ {V : Type 0} where
  -- A part of the pipeline that does not touch the notes.
  abbrev pub blind : Interceptor V → Interceptor (V × Notes)
  blind f m (v, notes) = let (r, v') = f m v in (r, (v', notes))

  -- An observer that notes each message that it is shown.
  abbrev pub recorder : String → Observer (V × Notes)
  recorder name m (v, notes) = (ok tt, (v, notes ++ ((name, m) ∷ [])))

  notify-recorder :
      (names : List String) (m : OmniMessage) (v : V) (notes : Notes)
      → notify (map recorder names) m (v, notes) ≡ (ok tt, (v, notes ++ seen names m))
  unfolding notify
  notify-recorder [] m v notes = ap (λ l. (ok tt, (v, l))) (sym (append-nil notes))
  notify-recorder (name ∷ names) m v notes =
      notify-recorder names m v (notes ++ ((name, m) ∷ []))
      ∙ ap (λ l. (ok tt, (v, l))) (append_assoc notes ((name, m) ∷ []) (seen names m))

  intercepted-blind :
      (is : List (Interceptor V)) (m : OmniMessage) (v : V) (notes : Notes)
      → intercepted (map blind is) m (v, notes)
        ≡ ((intercepted is m v).0, ((intercepted is m v).1, notes))
  unfolding intercepted
  intercepted-blind [] m v notes = refl
  intercepted-blind (i ∷ is) m v notes = go (λ m' v'. intercepted-blind is m' v' notes) (i m v)
    where
      go :
          ((m' : OmniMessage) (v' : V)
            → intercepted (map blind is) m' (v', notes)
              ≡ ((intercepted is m' v').0, ((intercepted is m' v').1, notes)))
          → (r : Result Failure OmniMessage × V)
          → and_then (r.0, (r.1, notes)) (intercepted (map blind is))
            ≡ ((and_then r (intercepted is)).0, ((and_then r (intercepted is)).1, notes))
      go ih (ok m', v') = ih m' v'
      go ih (err x, v') = refl

  abbrev pub handled :
      List String
      → OmniMessage
      → Notes
      → Result Failure OmniMessage × V
      → Result Failure OmniMessage × (V × Notes)
  handled names m notes (err x, v) = (err x, (v, notes ++ seen names m))
  handled names m notes (ok reply, v) = (ok reply, (v, (notes ++ seen names m) ++ seen names reply))

  -- What a message comes to, and what is noted of it: nothing if an interceptor raises; the message
  -- as the interceptors leave it, once by each observer, if the handler raises; that and the reply
  -- if not.
  abbrev pub audited :
      List String
      → Interceptor V
      → Notes
      → Result Failure OmniMessage × V
      → Result Failure OmniMessage × (V × Notes)
  audited names handler notes (err x, v) = (err x, (v, notes))
  audited names handler notes (ok m, v) = handled names m notes (handler m v)

  -- With interceptors and a handler that do not touch the notes, and any number of observers that
  -- note what they are shown, a message that an interceptor refuses is shown to none of them and
  -- not handled. Any other is shown to each of them, as the interceptors left it and before it is
  -- handled, and then the reply, if the handler does not raise; the result is the handler's.
  pub dispatch-audited :
      (is : List (Interceptor V)) (names : List String) (handler : Interceptor V) (m : OmniMessage)
      (v : V) (notes : Notes)
      → dispatch (map blind is) (map recorder names) (blind handler) m (v, notes)
        ≡ audited names handler notes (intercepted is m v)
  unfolding dispatch
  dispatch-audited is names handler m v notes =
      rw (intercepted-blind is m v notes) (go (intercepted is m v))
    where
      after :
          (m' : OmniMessage) (r : Result Failure OmniMessage × V)
          → and_then
              (r.0, (r.1, notes ++ seen names m'))
              (λ reply w3. and_then (notify (map recorder names) reply w3) (λ u w4. (ok reply, w4)))
            ≡ handled names m' notes r
      after m' (err x, v') = refl
      after m' (ok reply, v') = rw (notify-recorder names reply v' (notes ++ seen names m')) refl

      go :
          (r : Result Failure OmniMessage × V)
          → and_then
              (r.0, (r.1, notes))
              (λ m' w1. and_then (notify (map recorder names) m' w1) (λ u w2.
                and_then (blind handler m' w2) (λ reply w3.
                  and_then (notify (map recorder names) reply w3) (λ u w4. (ok reply, w4)))))
            ≡ audited names handler notes r
      go (err x, v') = refl
      go (ok m', v') = rw (notify-recorder names m' v' notes) (after m' (handler m' v'))
