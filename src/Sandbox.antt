-- ===== src/Sandbox.antt =====
-- The sandbox of omniai/sandbox/executor.py: the command line of a container, and how it ends. The
-- run of a command is a parameter.
mod Tests
use na_ai.Base.{
  ℕ, String, Bool, true, false, ◌&&◌, not, Option, none, some, List, [], ◌∷◌, ◌++◌, ◌==◌,
  if◌then◌else◌,
}
use na_ai.Base.Dict.{Dict, lookup}
use na_ai.Base.Result.{Result, ok, err}

-- How a run ended; no exit code stands for a negative one, as -1 where the time was up.
pub record SandboxResult : Type 0 where
  pub exit_code : Option ℕ
  pub stdout : String
  pub stderr : String
  pub timed_out : Bool

abbrev pub is_zero : Option ℕ → Bool
is_zero none = false
is_zero (some n) = n == 0

-- `SandboxResult.ok`
pub is_ok : SandboxResult → Bool
is_ok r = is_zero r.exit_code && not r.timed_out

-- `cpu_limit` is its text.
pub record SandboxExecution : Type 0 where
  pub image : String
  pub memory_limit : String
  pub cpu_limit : String
  pub network : Bool

pub data ValueError : Type 0 where
  unsupported_language : ValueError

abbrev pub language_commands : Dict (List String)
language_commands = ("python", ("python3" ∷ "-c" ∷ [])) ∷ ("bash", ("bash" ∷ "-c" ∷ [])) ∷ []

abbrev pub container : SandboxExecution → List String
container s =
    "docker" ∷ "run" ∷ "--rm" ∷ "--memory" ∷ s.memory_limit ∷ "--cpus" ∷ s.cpu_limit ∷ "--read-only"
    ∷ "--tmpfs" ∷ "/tmp:size=64m" ∷ "--security-opt" ∷ "no-new-privileges" ∷ "--user" ∷ "nobody"
    ∷ []

abbrev pub command_for :
    SandboxExecution → String → Option (List String) → Result ValueError (List String)
command_for s code none = err unsupported_language
command_for s code (some interpreter) = ok (
    container s
    ++ ((if s.network then [] else "--network" ∷ "none" ∷ [])
        ++ (s.image ∷ (interpreter ++ (code ∷ [])))))

-- `build_command`
unfoldable pub build_command : SandboxExecution → String → String → Result ValueError (List String)
build_command s code language = command_for s code (lookup language language_commands)

-- What a run of the process gives: its code and output, or none where the time was up.
abbrev pub result_of : Option (Option ℕ × (String × String)) → SandboxResult
result_of none = record {
  exit_code = none;
  stdout = "";
  stderr = "execution timed out";
  timed_out = true;
}
result_of (some (code, (out, errors))) = record {
  exit_code = code;
  stdout = out;
  stderr = errors;
  timed_out = false;
}

module _ {W : Type 0} (run : List String → W → Option (Option ℕ × (String × String)) × W) where
  abbrev pub executed : Result ValueError (List String) → W → Result ValueError SandboxResult × W
  executed (ok command) w = let (r, w') = run command w in (ok (result_of r), w')
  executed (err x) w = (err x, w)

  -- `execute`, with `_run_subprocess` as the runner
  unfoldable pub execute :
      SandboxExecution → String → String → W → Result ValueError SandboxResult × W
  unfolding build_command
  execute s code language w = executed (build_command s code language) w
