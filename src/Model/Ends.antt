-- ===== src/Model/Ends.antt =====
-- `AgentStatus::is_terminal` of crates/types/src/model.rs, status by status.
use prospero.Prelude.{◌≡◌, refl, Bool, true, false}
use prospero.Model.{
  AgentStatus, done, failed, killed, crashed, spawning, running, idle, is_terminal,
}

-- The run has ended.
abbrev pub at_end : AgentStatus → Bool
at_end done = true
at_end failed = true
at_end killed = true
at_end crashed = true
at_end spawning = false
at_end running = false
at_end idle = false

pub is_terminal_lem : (s : AgentStatus) → is_terminal s ≡ at_end s
unfolding is_terminal
is_terminal_lem done = refl
is_terminal_lem failed = refl
is_terminal_lem killed = refl
is_terminal_lem crashed = refl
is_terminal_lem spawning = refl
is_terminal_lem running = refl
is_terminal_lem idle = refl
