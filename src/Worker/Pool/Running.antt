-- ===== src/Worker/Pool/Running.antt =====
-- How the pool of app/pkg/worker/pool.go starts and stops: the goroutines of `Start`, which are its
-- workers and the collector of statistics, look at the context before each round, and end when it is
-- done. The wait group counts them.
use service_platform.Prelude.{
  ℕ, Assoc, ◌+◌, ◌-◌, ◌<◌, ◌≡◌, Bool, true, false, Option, none, some, [], if◌then◌else◌,
}
use service_platform.Prelude.Outcome.{Err}
use service_platform.Worker.Pool.{
  PoolStats, increment_active_workers, decrement_active_workers, increment_total_processed,
  increment_total_failed,
}

-- A goroutine that has seen the end of the context will leave, even if `Start` makes a new context.
pub record PoolLife : Type 0 where
  pub workers : ℕ
  pub stats : PoolStats
  pub started : Bool  -- `p.cancel != nil`
  pub cancelled : Bool  -- `p.ctx` is done
  pub going : ℕ  -- what the wait group counts
  pub busy : ℕ  -- those of them that have a job at hand
  pub leaving : ℕ  -- those of them that have seen the end

unfoldable pub new_worker_pool : ℕ → PoolLife
new_worker_pool workers = record {
  workers = workers;
  stats = record {
    total_workers = 0;
    active_workers = 0;
    processing_jobs = 0;
    total_processed = 0;
    total_failed = 0;
    queue_depths = [];
  };
  started = false;
  cancelled = false;
  going = 0;
  busy = 0;
  leaving = 0;
}

-- `ended` says if the caller's context is done.
unfoldable pub start : Bool → PoolLife → PoolLife
start ended w = record w {
  stats = record w.stats { total_workers = w.workers };
  started = true;
  cancelled = ended;
  going = w.going + w.workers + 1;
}

-- What `Stop` does before it waits.
unfoldable pub stop_asked : PoolLife → PoolLife
stop_asked w = if w.started then record w { cancelled = true } else w

-- What `Stop` may return: nothing if the wait group is done, or the error of its own context.
pub data StopReturns (w : PoolLife) : Option Err → Type 0 where
  waited : w.going ≡ 0 → StopReturns w none
  timed_out : (e : Err) → StopReturns w (some e)

-- A copy, with a new map of the depths.
unfoldable pub get_stats : PoolLife → PoolStats
get_stats w = w.stats

-- A worker takes a job; and it ends with it: the job has been processed, has failed, or was given up.
unfoldable pub took : PoolLife → PoolLife
unfolding increment_active_workers
took w = record w { stats = increment_active_workers w.stats; busy = w.busy + 1 }

pub data Ending : Type 0 where
  processed : Ending
  failed : Ending
  given_up : Ending

unfoldable pub counted : Ending → PoolStats → PoolStats
unfolding increment_total_processed increment_total_failed
counted processed s = increment_total_processed s
counted failed s = increment_total_failed s
counted given_up s = s

unfoldable pub ended_job : Ending → PoolLife → PoolLife
unfolding decrement_active_workers counted
ended_job e w = record w { stats = decrement_active_workers (counted e w.stats); busy = w.busy - 1 }

-- A goroutine sees that the context is done; and it returns.
unfoldable pub seen : PoolLife → PoolLife
seen w = record w { leaving = w.leaving + 1 }

unfoldable pub left : PoolLife → PoolLife
left w = record w { going = w.going - 1; leaving = w.leaving - 1 }

pub data Step (w : PoolLife) : PoolLife → Type 0 where
  starts : (ended : Bool) → Step w (start ended w)
  stops : Step w (stop_asked w)
  -- The context of the caller of `Start` ends.
  ends : w.started ≡ true → Step w (record w { cancelled = true })
  takes : w.busy + w.leaving < w.going → Step w (took w)
  ends_job : (e : Ending) → 0 < w.busy → Step w (ended_job e w)
  -- The collector writes down the depths that it has read.
  collects :
      (depths : Assoc ℕ)
      → w.busy + w.leaving < w.going
      → Step w (record w { stats = record w.stats { queue_depths = depths } })
  -- A goroutine looks at the context only when it has no job at hand.
  sees : w.cancelled ≡ true → w.busy + w.leaving < w.going → Step w (seen w)
  leaves : 0 < w.leaving → Step w (left w)

pub data Reach (s : PoolLife) : PoolLife → Type 0 where
  here : Reach s s
  next : {t u : PoolLife} → Reach s t → Step t u → Reach s u
