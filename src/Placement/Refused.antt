-- ===== src/Placement/Refused.antt =====
-- Why the search for a server fails.
use codegen_orchestrator.Prelude.{Bool, true, false}
use codegen_orchestrator.Placement.Search.{Verdict, short_free}

abbrev pub is_short_free : Verdict → Bool
is_short_free short_free = true
is_short_free _ = false
