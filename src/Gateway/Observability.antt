-- ===== src/Gateway/Observability.antt =====
-- The middlewares of omniai/gateway/observability.py: the request identifier and the metrics. What
-- answers a request is the caller's `call_next`, which acts on a world `W` and may raise an `X`;
-- header names are in lower case.
mod Tests
use na_ai.Base.{
  ℕ, String, ◌≡◌, refl, Option, none, some, List, [], ◌∷◌, ◌++◌, str_eq, if◌then◌else◌,
}
use na_ai.Base.Dict.{Dict, lookup, insert}
use na_ai.Base.Result.{Result, ok, err}

pub record Request : Type 0 where
  pub method : String
  pub headers : Dict String
  pub route : Option String

pub record Response : Type 0 where
  pub status_code : ℕ
  pub headers : Dict String

-- `request.headers.get("x-request-id") or ...`
abbrev pub or_new : String → Option String → String
or_new new_id none = new_id
or_new new_id (some s) = if str_eq s "" then new_id else s

-- `getattr(route, "path", "unmatched")`
abbrev pub label_of : Option String → String
label_of none = "unmatched"
label_of (some path) = path

-- A count of a request, by its labels.
pub record Counted : Type 0 where
  pub method : String
  pub path : String
  pub status : ℕ

abbrev pub labelled : {X : Type 0} → String → Result X Response → Result X Response
labelled rid (ok r) = ok (record r { headers = insert "x-request-id" rid r.headers })
labelled rid (err x) = err x

module _ {W X : Type 0} where
  -- `request_id_middleware`: the context variable is set for the call, and reset however that ends.
  unfoldable pub with_request_id :
      String
      → (Request → String × W → Result X Response × (String × W))
      → Request
      → String × W
      → Result X Response × (String × W)
  with_request_id new_id call_next req (before, w) =
      let rid = or_new new_id (lookup "x-request-id" req.headers) in
      let (r, after) = call_next req (rid, w) in (labelled rid r, (before, after.1))

  abbrev pub counted_as :
      Request → Result X Response × (List Counted × W) → Result X Response × (List Counted × W)
  counted_as req (ok r, (counts, w)) = (
    ok r,
    (
      counts
          ++ (record { method = req.method; path = label_of req.route; status = r.status_code }
              ∷ []),
      w,
    ),
  )
  counted_as req (err x, (counts, w)) = (err x, (counts, w))

  -- `metrics_middleware`, without the latency: a request that raises is not counted.
  pub with_metrics :
      (Request → List Counted × W → Result X Response × (List Counted × W))
      → Request
      → List Counted × W
      → Result X Response × (List Counted × W)
  with_metrics call_next req s = counted_as req (call_next req s)
