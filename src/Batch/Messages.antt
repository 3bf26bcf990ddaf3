-- ===== src/Batch/Messages.antt =====
-- The texts of internal/planbatch/execute.go that name a plan.
use Prim.Native.String.{String, ◌++◌}

pub not_implemented : String → String
not_implemented dep = "dependency " ++ dep ++ " is not implemented"
