-- ===== src/Worker/Lifecycle/Rounds.antt =====
-- Whole creations and whole rounds of workers as runs of statements.
use service_platform.Prelude.{ℕ, []}
use service_platform.JobRepository.Sql.{Engine}
use service_platform.RedisQueue.Server.{Codec}
use service_platform.Worker.Pool.{World}
use service_platform.Worker.Registry.{JobHandlerRegistry}
use service_platform.Worker.System
use service_platform.Worker.System.{backend_of}
use service_platform.Worker.Lifecycle.{Running, Reach}

module _ (codec : Codec) (sql : Engine) (beyond : ℕ → ℕ) (registry : JobHandlerRegistry) where
  open codec use {Wire}

  abbrev Runs : Running Wire → Running Wire → Type 0
  Runs = Reach codec sql beyond registry

  -- Nothing is under way.
  abbrev pub idle : World Wire → Running Wire
  idle w = record { world = w; tasks = [] }
