-- ===== src/Gateway/Router/Sockets.antt =====
-- The websocket route of omniai/gateway/router.py, and how it answers beside the others.
use na_ai.Base.{String, ◌≡◌, refl, ap, List, [], ◌∷◌}
use na_ai.Base.Result.{Result, ok, err}
use na_ai.Protocol.{OmniMessage}
use na_ai.Gateway.Adapters.{Invalid}
use na_ai.Gateway.Router.{
  Failure, guardrail, engine_unavailable, body_too_large, other_failure, Interceptor, Observer,
  dispatch, Response, success, bad_request, encoded, decoded, respond,
}

pub data Event (P : Type 0) : Type 0 where
  received : P → Event P
  disconnected : Event P

pub data Sent (A : Type 0) : Type 0 where
  answer : A → Sent A
  refusal : String → Sent A

-- How a connection stands after its events.
pub data Socket : Type 0 where
  waiting closed crashed : Socket

abbrev pub sending :
    {W A : Type 0} → Sent A → List (Sent A) × Socket × W → List (Sent A) × Socket × W
sending s (ss, end, w) = (s ∷ ss, end, w)

module _ {W P A : Type 0} (decode : P → Result Invalid OmniMessage) (encode : OmniMessage → A)
    (interceptors : List (Interceptor W)) (observers : List (Observer W))
    (handler : Interceptor W) where
  -- One payload: a guardrail's refusal is sent, any other exception ends the connection.
  abbrev pub settled :
      Result Failure OmniMessage × W → (W → List (Sent A) × Socket × W) → List (Sent A) × Socket × W
  settled (ok reply, w) rest = sending (answer (encode reply)) (rest w)
  settled (err (guardrail reason), w) rest = sending (refusal reason) (rest w)
  settled (err x, w) rest = ([], crashed, w)

  abbrev pub message_by :
      Result Invalid OmniMessage → W → (W → List (Sent A) × Socket × W) → List (Sent A) × Socket × W
  message_by (ok m) w rest = settled (dispatch interceptors observers handler m w) rest
  message_by (err x) w rest = ([], crashed, w)

  -- `websocket_endpoint`, on the events that the connection brings.
  unfoldable pub converse : List (Event P) → W → List (Sent A) × Socket × W
  converse [] w = ([], waiting, w)
  converse (disconnected ∷ es) w = ([], closed, w)
  converse (received p ∷ es) w = message_by (decode p) w (converse es)

  -- What a socket sends for an answer of the other routes.
  abbrev pub as_sent :
      Response A × W → (W → List (Sent A) × Socket × W) → List (Sent A) × Socket × W
  as_sent (success a, w) rest = sending (answer a) (rest w)
  as_sent (bad_request reason, w) rest = sending (refusal reason) (rest w)
  as_sent (_, w) rest = ([], crashed, w)

  -- A connection whose payloads go to such a route one by one.
  pub by_route : List (Event P) → W → List (Sent A) × Socket × W
  by_route [] w = ([], waiting, w)
  by_route (disconnected ∷ es) w = ([], closed, w)
  by_route (received p ∷ es) w =
      as_sent (respond decode encode interceptors observers handler p w) (by_route es)

  settled-encoded :
      (r : Result Failure OmniMessage × W) (f g : W → List (Sent A) × Socket × W)
      → ((w : W) → f w ≡ g w)
      → settled r f ≡ as_sent (encoded decode encode interceptors observers handler r) g
  settled-encoded (ok reply, w) f g h = ap (sending (answer (encode reply))) (h w)
  settled-encoded (err (guardrail reason), w) f g h = ap (sending (refusal reason)) (h w)
  settled-encoded (err (engine_unavailable x), w) f g h = refl
  settled-encoded (err (body_too_large x), w) f g h = refl
  settled-encoded (err other_failure, w) f g h = refl

  message_by-decoded :
      (r : Result Invalid OmniMessage) (w : W) (f g : W → List (Sent A) × Socket × W)
      → ((v : W) → f v ≡ g v)
      → message_by r w f ≡ as_sent (decoded decode encode interceptors observers handler r w) g
  message_by-decoded (ok m) w f g h =
      settled-encoded (dispatch interceptors observers handler m w) f g h
  message_by-decoded (err x) w f g h = refl

  -- A websocket answers each payload as the HTTP routes do, in order, and goes on after a guardrail's
  -- refusal; the first payload that is answered otherwise ends it with nothing sent.
  pub converse-by_route : (es : List (Event P)) (w : W) → converse es w ≡ by_route es w
  unfolding converse by_route respond
  converse-by_route [] w = refl
  converse-by_route (disconnected ∷ es) w = refl
  converse-by_route (received p ∷ es) w =
      message_by-decoded (decode p) w (converse es) (by_route es) (converse-by_route es)
