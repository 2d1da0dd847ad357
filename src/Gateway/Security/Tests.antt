-- ===== src/Gateway/Security/Tests.antt =====
-- The theorems on the security middleware, at concrete requests. The texts are in lower case, there
-- is no query, and no Content-Length is read.
use na_ai.Base.{String, ◌≡◌, refl, true, some, [], ◌∷◌}
use na_ai.Gateway.RateLimit.{new, refilled, allow}
use na_ai.Gateway.Security.{
  Python, http, Scope, Settings, passed, unauthorized, type_error, extract_key, key_valid, admit,
}
use na_ai.Gateway.Security.Admission.{IsAdmitted, admit-IsAdmitted, admit-IsForeign}

abbrev python : Python
python = record { lower = λ s. s; parse_qs = λ s. []; int_of = λ s. some 7 }

abbrev settings : Settings
settings = record { auth_enabled = true; api_keys = "k1" ∷ "k2" ∷ []; max_body_bytes = 10 }

abbrev request_with : String → Scope
request_with key = record {
  kind = http;
  path = "/chat";
  headers = ("content-length", "7") ∷ ("x-api-key", key) ∷ [];
  query_string = "";
}

request_passes : (admit python settings (request_with "k2") 3 (new 1 1 5)).0 ≡ passed
unfolding admit extract_key key_valid allow refilled
request_passes = refl

admit-IsAdmitted_example : IsAdmitted python settings (request_with "k2") 3 (new 1 1 5)
admit-IsAdmitted_example =
    admit-IsAdmitted python settings (request_with "k2") 3 (new 1 1 5) refl refl refl request_passes

carries_k3 : extract_key python (request_with "k3") ≡ some "k3"
unfolding extract_key
carries_k3 = refl

admit-IsForeign_example :
    admit python settings (request_with "k3") 3 (new 1 1 5) ≡ (unauthorized, new 1 1 5)
admit-IsForeign_example =
    admit-IsForeign python settings (request_with "k3") 3 (new 1 1 5) "k3" refl refl refl carries_k3
      (refl, ((refl, refl), ((refl, refl), tt)))

-- A key that is not ASCII makes `compare_digest` raise.
foreign_raises : (admit python settings (request_with "ключ") 3 (new 1 1 5)).0 ≡ type_error
unfolding admit extract_key key_valid
foreign_raises = refl
