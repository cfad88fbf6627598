-- ===== src/Application/Occupancy/Frame.antt =====
-- The tables that the occupancy operations leave alone.
use hibiki.Prelude.{ℕ, ◌≡◌, Bool, arith}
use hibiki.Persistence.Models.{Store, AgentRunRow}
use hibiki.Application.Occupancy.{clear_run_occupancy, keep_start_occupancy}

-- What neither a release nor a hold of an occupancy touches.
pub record SameRecords (s t : Store) : Type 0 where
  pub tasks : t.tasks ≡ s.tasks
  pub runs : t.runs ≡ s.runs
  pub gates : t.gates ≡ s.gates
  pub effects : t.side_effects ≡ s.side_effects
  pub outbox : t.outbox ≡ s.outbox

pub clear_run_occupancy-SameRecords :
    (run_id : ℕ) (run : AgentRunRow) (release : Bool) (s : Store)
    → SameRecords s (clear_run_occupancy run_id run release s)
unfolding clear_run_occupancy
clear_run_occupancy-SameRecords run_id run release s = ground arith

pub keep_start_occupancy-SameRecords :
    (run_id : ℕ) (run : AgentRunRow) (s : Store) → SameRecords s (keep_start_occupancy run_id run s)
unfolding keep_start_occupancy
keep_start_occupancy-SameRecords run_id run s = ground arith
