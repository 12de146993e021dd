-- ===== src/Connector/Repeated.antt =====
-- connector/pocage/executor.py: two requests for a permission under one approval.
use pocage.Prelude.{ℕ}
use pocage.Dict
use pocage.Waiters.Lost.{IsLost}
use pocage.Connector.Executor.{PocageExecutor}

abbrev Loses : PocageExecutor → ℕ → Type 0
Loses e n = IsLost e.pending_permission_decisions n
