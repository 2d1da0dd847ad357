-- ===== src/Gateway/BodyLimit/Tests.antt =====
-- The cap on streamed bodies, at concrete parts.
use na_ai.Base.{◌≡◌, refl, ◌∷◌, []}
use na_ai.Base.Result.{ok, err}
use na_ai.Gateway.BodyLimit.{request, disconnect, exceeded, receive_all, receive_all_lem}

receive_all_lem_example :
    receive_all 10 0 (request 4 ∷ request 6 ∷ disconnect ∷ [])
    ≡ ok (request 4 ∷ request 6 ∷ disconnect ∷ [])
receive_all_lem_example = receive_all_lem 10 (request 4 ∷ request 6 ∷ disconnect ∷ [])

over : receive_all 10 0 (request 4 ∷ request 7 ∷ disconnect ∷ []) ≡ err (exceeded 10)
unfolding receive_all
over = refl
