-- ===== src/Core/Live.antt =====
-- crates/core/src/live.rs: evidence that a session runs, and the identity of its process.
use agent_workboard.Prelude.{Bool, true, false}

pub data LiveEvidenceSource : Type 0 where
  product_launch claude_hook codex_hook codex_app_server windows_process : LiveEvidenceSource

unfoldable pub is_exact : LiveEvidenceSource → Bool
is_exact claude_hook = true
is_exact codex_hook = true
is_exact codex_app_server = true
is_exact _ = false

pub data LiveStatus : Type 0 where
  active idle stopped unknown system_error not_loaded : LiveStatus

unfoldable pub indicates_live : LiveStatus → Bool
indicates_live active = true
indicates_live idle = true
indicates_live _ = false

unfoldable pub indicates_stopped : LiveStatus → Bool
indicates_stopped stopped = true
indicates_stopped not_loaded = true
indicates_stopped _ = false

pub data Resumability : Type 0 where
  validated preflight_passed unknown missing corrupt unsupported : Resumability

unfoldable pub Resumability-discrete : Discrete Resumability
Resumability-discrete = hlevel
