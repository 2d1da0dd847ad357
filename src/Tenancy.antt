-- ===== src/Tenancy.antt =====
-- The tenants of omniai/tenancy.py: agent profiles, their registry, and the handler that routes a
-- message to its agent's adapter. A retriever's `render_context` and the engine's `chat_text` are the
-- caller's; the keyword arguments of a chat are texts.
pub mod Routing
use na_ai.Base.{
  ℕ, String, Bool, true, false, Option, none, some, List, [], ◌∷◌, ◌++◌, str_eq, if◌then◌else◌,
}
use na_ai.Base.Dict.{Dict, lookup, contains, insert}
use na_ai.Base.Result.{Result, ok, err}
use na_ai.Protocol.{system, user, Value, text, texts, null, opaque, OmniMessage, reply}
use na_ai.Models.Wire.{WireMessage, plain}
use Prim.Native.String.{◌++◌ as str_append}

pub record AgentProfile : Type 0 where
  pub name : String
  pub lora : Option String
  pub system_prompt : String
  pub retriever : Option (String → String)
  pub chat_kwargs : Dict String

pub record AgentRegistry : Type 0 where
  pub profiles : Dict AgentProfile
  pub default : Option String

pub data Error (E : Type 0) : Type 0 where
  already_registered : String → Error E
  no_agents : Error E
  unhashable : Error E
  raised : E → Error E

abbrev pub new : Option String → AgentRegistry
new default = record { profiles = []; default = default }

abbrev pub context_of : Option (String → String) → String → String
context_of none query = ""
context_of (some render) query = render query

-- `"\n\n".join(part for part in (prompt, context) if part)`
abbrev pub joined : String → String → String
joined prompt context =
    if str_eq prompt ""
    then context
    else (if str_eq context "" then prompt else str_append prompt (str_append "\n\n" context))

-- `build_messages`: the messages, and the context that was used.
pub build_messages : String → AgentProfile → List WireMessage × String
build_messages query p =
    let context = context_of p.retriever query in
    let system_text = joined p.system_prompt context in
    (
      (if str_eq system_text "" then [] else plain system system_text ∷ [])
          ++ (plain user query ∷ []),
      context,
    )

abbrev pub or_first : Option String → String → Option String
or_first none name = some name
or_first (some d) name = some d

module _ {E : Type 0} where
  unfoldable pub register : AgentProfile → AgentRegistry → Result (Error E) AgentRegistry
  register p r =
      if contains p.name r.profiles
      then err (already_registered p.name)
      else ok
          (record { profiles = insert p.name p r.profiles; default = or_first r.default p.name })

  abbrev pub found : Option AgentProfile → Result (Error E) AgentProfile
  found none = err no_agents
  found (some p) = ok p

  abbrev pub by_default : Option String → AgentRegistry → Result (Error E) AgentProfile
  by_default none r = err no_agents
  by_default (some d) r = found (lookup d r.profiles)

  abbrev pub or_default : Option AgentProfile → AgentRegistry → Result (Error E) AgentProfile
  or_default none r = by_default r.default r
  or_default (some p) r = ok p

  unfoldable pub resolve : Option String → AgentRegistry → Result (Error E) AgentProfile
  resolve none r = by_default r.default r
  resolve (some name) r = or_default (lookup name r.profiles) r

  -- `metadata.get("agent")` as a name: a list cannot be a key, and no profile has another value.
  abbrev pub resolve_value : Option Value → AgentRegistry → Result (Error E) AgentProfile
  resolve_value none r = resolve none r
  resolve_value (some null) r = resolve none r
  resolve_value (some (text s)) r = resolve (some s) r
  resolve_value (some (texts ss)) r = err unhashable
  resolve_value (some (opaque n)) r = by_default r.default r

-- `kwargs["model"] = profile.lora`
abbrev pub with_model : Option String → Dict String → Dict String
with_model none kwargs = kwargs
with_model (some l) kwargs = insert "model" l kwargs

abbrev pub or_null : Option String → Value
or_null none = null
or_null (some s) = text s

-- `reply.metadata.update(...)`
abbrev pub tagged : AgentProfile → String → OmniMessage → OmniMessage
tagged p context m = record m {
  metadata =
      insert "rag_context" (text context)
        (insert "lora" (or_null p.lora) (insert "agent" (text p.name) m.metadata));
}

module _ {E W : Type 0} (chat_text : List WireMessage → Dict String → W → Result E String × W)
    (new_id : String) (now : ℕ) where
  abbrev pub replied :
      AgentProfile → String → OmniMessage → Result E String × W → Result (Error E) OmniMessage × W
  replied p context m (err x, w) = (err (raised x), w)
  replied p context m (ok answer, w) = (ok (tagged p context (reply new_id now m answer)), w)

  abbrev pub ask :
      OmniMessage → W → Result (Error E) AgentProfile → Result (Error E) OmniMessage × W
  ask m w (err x) = (err x, w)
  ask m w (ok p) =
      let (messages, context) = build_messages m.content p in
      replied p context m (chat_text messages (with_model p.lora p.chat_kwargs) w)

  -- `TenantHandler.__call__`
  pub handle : AgentRegistry → OmniMessage → W → Result (Error E) OmniMessage × W
  handle r m w = ask m w (resolve_value (lookup "agent" m.metadata) r)
