-- ===== src/Gateway/Router/Tests.antt =====
-- The pipeline and its routes, at a handler that echoes and an interceptor that refuses a word.
use na_ai.Base.{ℕ, ◌+◌, String, ◌≡◌, refl, none, some, List, [], ◌∷◌, map, str_eq, if◌then◌else◌}
use na_ai.Base.Result.{ok, err}
use na_ai.Protocol.{OmniMessage, websocket, reply}
use na_ai.Engine.Breaker.{open_state}
use na_ai.Gateway.Adapters.{inbound, rest_to_omni, missing, given, RestPayload, rest_from_omni}
use na_ai.Gateway.Router.{Interceptor, guardrail, intercepted, dispatch, readiness}
use na_ai.Gateway.Router.Audit.{blind, recorder, audited, dispatch-audited}
use na_ai.Gateway.Router.Sockets.{
  Event, received, disconnected, closed as closed_socket, answer, refusal, converse, by_route,
  converse-by_route,
}

abbrev message : OmniMessage
message = inbound websocket "m" 1 "hello" "s" []

abbrev echo : Interceptor ℕ
echo m w = (ok (reply "r" 2 m m.content), w + 1)

abbrev no_secrets : Interceptor ℕ
no_secrets m w = (if str_eq m.content "secret" then err (guardrail "no secrets") else ok m, w)

dispatch-audited_example :
    dispatch
      (map blind (no_secrets ∷ []))
      (map recorder ("buffer" ∷ []))
      (blind echo)
      message
      (5, [])
    ≡ audited ("buffer" ∷ []) echo [] (intercepted (no_secrets ∷ []) message 5)
dispatch-audited_example = dispatch-audited (no_secrets ∷ []) ("buffer" ∷ []) echo message 5 []

message-audited : audited ("buffer" ∷ []) echo [] (intercepted (no_secrets ∷ []) message 5) ≡ (
  ok (reply "r" 2 message "hello"),
  (6, ("buffer", message) ∷ ("buffer", reply "r" 2 message "hello") ∷ []),
)
unfolding intercepted
message-audited = refl

abbrev payload : String → RestPayload
payload content = record { content = given content; session_id = given "s"; metadata = missing }

abbrev events : List (Event RestPayload)
events = received (payload "secret") ∷ received (payload "hello") ∷ disconnected ∷ []

converse-by_route_example :
    converse (rest_to_omni websocket "m" 1) rest_from_omni (no_secrets ∷ []) [] echo events 0
    ≡ by_route (rest_to_omni websocket "m" 1) rest_from_omni (no_secrets ∷ []) [] echo events 0
converse-by_route_example =
    converse-by_route (rest_to_omni websocket "m" 1) rest_from_omni (no_secrets ∷ []) [] echo events
      0

events_sent :
    converse (rest_to_omni websocket "m" 1) rest_from_omni (no_secrets ∷ []) [] echo events 0 ≡ (
      refusal "no secrets" ∷ answer (rest_from_omni (reply "r" 2 message "hello")) ∷ [],
      closed_socket,
      1,
    )
unfolding converse dispatch intercepted rest_to_omni
events_sent = refl

not_ready :
    readiness
      (record { database = some none; breaker = some open_state; supervisor_failure = none })
    ≡ some ("engine: circuit breaker open" ∷ [])
unfolding readiness
not_ready = refl
