-- ===== src/Fleet/Poll/Settled.antt =====
-- What a poll leaves behind: the listed agents, and nothing more to say of them.
use prospero.Prelude.{Option, none, some, List}
use prospero.Model.{AgentStatus}
use prospero.Fleet.Manager.{Manager}

-- The status that a list read back from the snapshot has, or that it had before.
or_before : Option AgentStatus → Option AgentStatus → Option AgentStatus
or_before none before = before
or_before (some s) before = some s
