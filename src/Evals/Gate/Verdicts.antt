-- ===== src/Evals/Gate/Verdicts.antt =====
-- When an adapter passes the gate (AdapterGate.evaluate).
use na_ai.Base.Result.{Result}
use Prim.Native.Char.{Char}
