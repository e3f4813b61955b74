-- ===== src/Settlement/Lifecycle.antt =====
-- backend/src/services/settlement-service.ts: starting and stopping the service. The worker and the
-- queue are BullMQ's; a queue that is closed takes no more jobs.
use multisub_infra.Prelude.{Bool, true, false, if◌then◌else◌}

pub record Service : Type 0 where
  pub running : Bool
  pub has_worker : Bool
  pub is_open : Bool

unfoldable pub start : Service → Service
start s = if s.running then s else record s { running = true; has_worker = true }

unfoldable pub stop : Service → Service
stop s = record s { running = false; has_worker = false; is_open = false }

-- Whether `enqueue` can add a job.
abbrev pub takes_jobs : Service → Bool
takes_jobs s = s.is_open
