-- ===== src/Gateway/Observability/Tests.antt =====
-- The middlewares, on a handler that answers and one that raises.
use na_ai.Base.{ℕ, String, ◌≡◌, refl, none, List, [], ◌∷◌}
use na_ai.Base.Result.{Result, ok, err}
use na_ai.Gateway.Observability.{Request, Response, Counted, with_request_id, with_metrics}

abbrev request : Request
request = record { method = "GET"; headers = ("x-request-id", "r1") ∷ []; route = none }

abbrev handler : Request → String × List String → Result String Response × (String × List String)
handler req (rid, seen) = (ok (record { status_code = 200; headers = [] }), (rid, rid ∷ seen))

abbrev raising : Request → List Counted × ℕ → Result String Response × (List Counted × ℕ)
raising req s = (err "boom", s)

-- The handler sees the identifier, the answer carries it, and the variable is as it was.
identified :
    with_request_id "new" handler request ("-", [])
    ≡ (ok (record { status_code = 200; headers = ("x-request-id", "r1") ∷ [] }), ("-", "r1" ∷ []))
unfolding with_request_id
identified = refl

not_counted : with_metrics raising request ([], 0) ≡ (err "boom", ([], 0))
unfolding with_metrics
not_counted = refl
