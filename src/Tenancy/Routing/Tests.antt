-- ===== src/Tenancy/Routing/Tests.antt =====
-- The routing of names, at two agents and a refused third.
use na_ai.Base.{String, ◌≡◌, refl, false, Option, none, some, [], ◌∷◌}
use na_ai.Base.Dict.{contains}
use na_ai.Base.Result.{ok}
use na_ai.Tenancy.{AgentProfile, AgentRegistry, new, register, resolve}
use na_ai.Tenancy.Routing.{register_all, resolve-register_all, resolve_total}

abbrev agent : String → String → AgentProfile
agent name lora = record {
  name = name;
  lora = some lora;
  system_prompt = "";
  retriever = none;
  chat_kwargs = [];
}

abbrev sales_only : AgentRegistry
sales_only = record { profiles = ("sales", agent "sales" "v1") ∷ []; default = some "sales" }

-- A later profile of the same name does not take the name over.
kept-resolve :
    resolve {E = String}
      (some "sales")
      (register_all String (agent "support" "v1" ∷ agent "sales" "v2" ∷ []) sales_only)
    ≡ ok (agent "sales" "v1")
kept-resolve =
    resolve-register_all String (agent "support" "v1" ∷ agent "sales" "v2" ∷ [])
      (agent "sales" "v1") "sales" sales_only refl

legal_resolves :
    (q : AgentProfile) × (resolve {E = String}
        (some "legal")
        (register_all String (agent "sales" "v1" ∷ []) (new none))
      ≡ ok q)
    × ((k : String)
        → ◌≡◌ {A = Option String} (some "legal") (some k)
        → contains k (register_all String (agent "sales" "v1" ∷ []) (new none)).profiles ≡ false
        → q ≡ agent "sales" "v1")
legal_resolves = resolve_total String (agent "sales" "v1") [] (some "legal")

unknown_falls_back :
    resolve {E = String}
      (some "legal")
      (register_all String (agent "sales" "v1" ∷ agent "support" "v1" ∷ []) (new none))
    ≡ ok (agent "sales" "v1")
unfolding resolve register_all register
unknown_falls_back = refl
