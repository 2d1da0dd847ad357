-- ===== src/Engine/Backends/Environment.antt =====
-- Where a variable of the server's environment comes from (BackendAdapter.build_env).
use na_ai.Base.{
  ℕ, String, ◌≡◌, refl, ap, ◌∙◌, Option, none, some, List, str_eq, if◌then◌else◌, arith,
}
use na_ai.Base.Dict.{Dict, lookup, IsDict, or_of, lookup-insert, lookup-updated}
use na_ai.Engine.Config.{EngineConfig}
use na_ai.Engine.Backends.{AdapterClass, comma_joined, placed, build_env}

module _ (show : ℕ → String) where
  abbrev pub device_variable : Option (List ℕ) → String → Option String
  device_variable none k = none
  device_variable (some ds) k =
      if str_eq "CUDA_VISIBLE_DEVICES" k then some (comma_joined show ds) else none

  lookup-placed :
      (devices : Option (List ℕ)) (environ : Dict String) (k : String)
      → lookup k (placed show devices environ)
        ≡ or_of (device_variable devices k) (lookup k environ)
  lookup-placed none environ k = refl
  lookup-placed (some ds) environ k =
      ground (arith, lookup-insert "CUDA_VISIBLE_DEVICES" k (comma_joined show ds) environ)

  -- Where no key stands twice in `config.env` or in what the backend needs, a variable has the
  -- value of the user's `config.env` if it is there, else the one that the backend needs, else the
  -- placement on the devices, and else the one that the parent's environment has.
  pub build_env-lookup :
      (a : AdapterClass) (environ : Dict String) (c : EngineConfig) (k : String)
      → IsDict c.env
      → IsDict (a.backend_env c)
      → lookup k (build_env show a environ c)
        ≡ or_of (lookup k c.env) (
            or_of
              (lookup k (a.backend_env c))
              (or_of (device_variable c.devices k) (lookup k environ)))
  unfolding build_env
  build_env-lookup a environ c k user backend =
      lookup-updated k _ c.env user
      ∙ ap (or_of (lookup k c.env)) (
          lookup-updated k _ (a.backend_env c) backend
          ∙ ap (or_of (lookup k (a.backend_env c))) (lookup-placed c.devices environ k))
