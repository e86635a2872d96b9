-- ===== src/Tests/PoolTests.antt =====
-- The pool of workers at a concrete input.
use service_platform.Prelude.{◌≡◌, ◌≤◌, ◌+◌, ◌⊎◌, refl, true, false, none}
use service_platform.Worker.Pool.Running.{
  PoolLife, new_worker_pool, StopReturns, Reach, here, next, starts, stops,
}
use service_platform.Worker.Pool.AllWork.{Reach-WorksOrRests}

-- A pool with two workers is started, and stopped.
abbrev stopped_pool : (w : PoolLife) × Reach (new_worker_pool 2) w
unfolding service_platform.Worker.Pool.Running.start
stopped_pool = (_, next (next here (starts false)) stops)

Reach-WorksOrRests_example :
    ((stopped_pool.0.cancelled ≡ false)
      × (stopped_pool.0.stats.total_workers + 1 + stopped_pool.0.leaving ≤ stopped_pool.0.going))
    ⊎ ((stopped_pool.0.cancelled ≡ true)
        × ((v : PoolLife) × Reach stopped_pool.0 v
            × (v.stats.active_workers ≡ 0)
            × StopReturns v none))
unfolding service_platform.Worker.Pool.Running.stop_asked service_platform.Worker.Pool.Running.start
Reach-WorksOrRests_example = Reach-WorksOrRests 2 stopped_pool.0 stopped_pool.1 refl
