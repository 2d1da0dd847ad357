-- ===== src/Sandbox/Tests.antt =====
-- The command line of a container, and a run that takes too long.
use na_ai.Base.{ℕ, String, ◌≡◌, refl, false, Option, none, List, [], ◌∷◌}
use na_ai.Base.Result.{ok, err}
use na_ai.Sandbox.{SandboxExecution, unsupported_language, build_command, result_of, execute}

abbrev sandbox : SandboxExecution
sandbox = record {
  image = "python:3.11-slim";
  memory_limit = "256m";
  cpu_limit = "1.0";
  network = false;
}

python_command :
    build_command sandbox "print(1)" "python"
    ≡ ok (
        "docker" ∷ "run" ∷ "--rm" ∷ "--memory" ∷ "256m" ∷ "--cpus" ∷ "1.0" ∷ "--read-only"
        ∷ "--tmpfs" ∷ "/tmp:size=64m" ∷ "--security-opt" ∷ "no-new-privileges" ∷ "--user" ∷ "nobody"
        ∷ "--network" ∷ "none" ∷ "python:3.11-slim" ∷ "python3" ∷ "-c" ∷ "print(1)" ∷ [])
unfolding build_command
python_command = refl

abbrev never_ends : List String → ℕ → Option (Option ℕ × (String × String)) × ℕ
never_ends _ w = (none, w)

too_long : (execute never_ends sandbox "while True: pass" "python" 0) ≡ (ok (result_of none), 0)
unfolding execute
too_long = refl

no_ruby : (execute never_ends sandbox "puts 1" "ruby" 0) ≡ (err unsupported_language, 0)
unfolding execute
no_ruby = refl
