-- ===== src/Graph/Tools/Tests.antt =====
-- A tool that is run by the agent, on arguments that are and are not accepted.
use na_ai.Base.{String, ◌≡◌, refl, str_eq, if◌then◌else◌}
use na_ai.Base.Result.{Result, ok, err}
use na_ai.Graph.Agent.{output, invalid}
use na_ai.Graph.Tools.{Tool, agent_tool}

abbrev loads : String → Result String String
loads s = if str_eq s "{" then err "unterminated" else ok s

abbrev upper : Tool String
upper = record {
  name = "upper";
  description = "";
  schema = "{}";
  model_validate = λ s. if str_eq s "{x}" then ok "x" else err "no x";
  fn = λ s. ok "X";
}

runs : (agent_tool loads upper).execute "{x}" ≡ output "X"
unfolding agent_tool
runs = refl

refused : (agent_tool loads upper).execute "{y}" ≡ invalid "no x"
unfolding agent_tool
refused = refl
