-- ===== src/Worker/Pool/AllWork.antt =====
-- The invariant of the pool of app/pkg/worker/pool.go over its starts and stops.
use service_platform.Prelude.{
  ℕ, zero, suc, ◌∙◌, ◌+◌, ◌-◌, ltb, if◌then◌else◌, ◌<◌, ◌≤◌, ◌≡◌, ◌⊎◌, refl, true, false, none,
  arith, if-cases, Bool-cases, inl, inr,
}
use service_platform.Worker.Pool.{PoolStats, decrement_active_workers}
use service_platform.Worker.Pool.Running.{
  PoolLife, new_worker_pool, start, stop_asked, StopReturns, waited, took, Ending, processed,
  failed, given_up, counted, ended_job, seen, left, Step, starts, stops, ends, takes, ends_job,
  collects, sees, leaves, Reach, here, next,
}

pub record WorkInv (w : PoolLife) : Type 0 where
  pub bounded : w.busy + w.leaving ≤ w.going
  pub active : w.stats.active_workers ≡ w.busy
  pub fresh : w.started ≡ false → w.cancelled ≡ false
  pub working :
      w.started ≡ true → w.cancelled ≡ false → w.stats.total_workers + 1 + w.leaving ≤ w.going

WorkInv-stop_asked : (w : PoolLife) → WorkInv w → WorkInv (stop_asked w)
unfolding stop_asked
WorkInv-stop_asked w inv =
    if-cases WorkInv w.started _ w
      (λ on. record {
        bounded = inv.bounded;
        active = inv.active;
        fresh = λ h. absurd (cc (on, h));
        working = λ h g. absurd (cc g);
      })
      (λ fresh. inv)

total_workers-ended :
    (e : Ending) (s : PoolStats)
    → (decrement_active_workers (counted e s)).total_workers ≡ s.total_workers
unfolding decrement_active_workers counted
total_workers-ended processed s = refl
total_workers-ended failed s = refl
total_workers-ended given_up s = refl

-- The counter does not go below 0.
active_workers-ended :
    (e : Ending) (s : PoolStats)
    → (decrement_active_workers (counted e s)).active_workers
      ≡ (if ltb 0 s.active_workers then s.active_workers - 1 else s.active_workers)
unfolding decrement_active_workers counted
active_workers-ended processed s = refl
active_workers-ended failed s = refl
active_workers-ended given_up s = refl

one_less : (a b : ℕ) → a ≡ b → (if ltb 0 a then a - 1 else a) ≡ b - 1
one_less a b same = ground (arith, same)

Step-WorkInv : {v w : PoolLife} → Step v w → WorkInv v → WorkInv w
unfolding start took ended_job seen left
Step-WorkInv {v = v} (starts ended) inv = record {
  bounded = omega (arith, inv.bounded);
  active = inv.active;
  fresh = λ h. absurd (cc h);
  working = λ h g. omega (arith, inv.bounded);
}
Step-WorkInv {v = v} stops inv = WorkInv-stop_asked v inv
Step-WorkInv {v = v} (ends on) inv = record {
  bounded = inv.bounded;
  active = inv.active;
  fresh = λ h. absurd (cc (on, h));
  working = λ h g. absurd (cc g);
}
Step-WorkInv {v = v} (takes some_idle) inv = record {
  bounded = omega (arith, some_idle);
  active = omega (arith, inv.active);
  fresh = inv.fresh;
  working = inv.working;
}
Step-WorkInv {v = v} (ends_job e some_busy) inv = record {
  bounded = omega (arith, some_busy, inv.bounded);
  active = active_workers-ended e v.stats ∙ one_less v.stats.active_workers v.busy inv.active;
  fresh = inv.fresh;
  working = λ h g. rw (total_workers-ended e v.stats) (inv.working h g);
}
Step-WorkInv {v = v} (collects depths some_idle) inv = record {
  bounded = inv.bounded;
  active = inv.active;
  fresh = inv.fresh;
  working = inv.working;
}
Step-WorkInv {v = v} (sees done some_going) inv = record {
  bounded = omega (arith, some_going);
  active = inv.active;
  fresh = inv.fresh;
  working = λ h g. absurd (cc (done, g));
}
Step-WorkInv {v = v} (leaves some_leaving) inv = record {
  bounded = omega (arith, some_leaving, inv.bounded);
  active = inv.active;
  fresh = inv.fresh;
  working = λ h g. let k = inv.working h g in omega (arith, some_leaving, k);
}

Reach-WorkInv : (n : ℕ) {w : PoolLife} → Reach (new_worker_pool n) w → WorkInv w
unfolding new_worker_pool
Reach-WorkInv n here = record {
  bounded = omega arith;
  active = refl;
  fresh = λ h. refl;
  working = λ h g. absurd (cc h);
}
Reach-WorkInv n (next r st) = Step-WorkInv st (Reach-WorkInv n r)

Reach-Reach : {s t u : PoolLife} → Reach s t → Reach t u → Reach s u
Reach-Reach r here = r
Reach-Reach r (next q st) = next (Reach-Reach r q) st

-- The pool can come to rest.
abbrev pub ComesToRest : PoolLife → Type 0
ComesToRest w = (v : PoolLife) × Reach w v × StopReturns v none

-- What each pool with no job at hand and `n` goroutines does.
abbrev Rests : ℕ → Type 0
Rests n =
    (w : PoolLife)
    → w.going ≡ n
    → w.busy ≡ 0
    → w.leaving ≤ w.going
    → w.cancelled ≡ true
    → ComesToRest w

zero_or : (n : ℕ) → (n ≡ 0) ⊎ (0 < n)
zero_or zero = inl refl
zero_or (suc n) = inr (omega arith)

after_step : {w v : PoolLife} → Step w v → ComesToRest v → ComesToRest w
after_step st (u, r, returned) = (u, Reach-Reach (next here st) r, returned)

leave_one :
    (n : ℕ)
    → Rests n
    → (w : PoolLife) → w.going ≡ suc n
    → w.busy ≡ 0
    → 0 < w.leaving
    → w.leaving ≤ w.going
    → w.cancelled ≡ true
    → ComesToRest w
unfolding left
leave_one n rest w more idle some_leaving bounded done =
    after_step (leaves some_leaving)
      (rest (left w) (omega (arith, more)) idle (omega (arith, some_leaving, bounded)) done)

leave_all : (n : ℕ) → Rests n
unfolding seen
leave_all zero w none_left idle bounded done = (w, here, waited none_left)
leave_all (suc n) w more idle bounded done = elim (zero_or w.leaving) [
  | inr some_leaving ↦ leave_one n (leave_all n) w more idle some_leaving bounded done
  | inl none_leaving ↦ after_step (sees done (omega (arith, more, idle, none_leaving))) (
      leave_one n (leave_all n) (seen w) more idle (omega (arith, none_leaving))
        (omega (arith, more, none_leaving)) done)
]

-- First every job at hand is ended.
finish_all :
    (n : ℕ) (w : PoolLife)
    → w.busy ≡ n
    → w.busy + w.leaving ≤ w.going
    → w.cancelled ≡ true
    → ComesToRest w
unfolding ended_job
finish_all zero w idle bounded done = leave_all w.going w refl idle (omega (arith, bounded)) done
finish_all (suc n) w more bounded done =
    after_step (ends_job processed (omega (arith, more))) (
      finish_all n (ended_job processed w) (omega (arith, more)) (omega (arith, more, bounded))
        done)

no_one : (v : PoolLife) → v.busy + v.leaving ≤ v.going → StopReturns v none → v.busy ≡ 0
no_one v bounded (waited none_going) = omega (arith, bounded, none_going)

-- In every state that a pool reaches that has been started, with any calls of `Start` and `Stop` and any
-- ends of contexts: either its context is not done, and at least all the workers of the last `Start` and
-- the collector are at work and have not seen an end; or it is done, and the goroutines can end
-- one after the other, once those that have a job at hand have ended it, until `Stop` returns
-- without an error and no worker is counted as active.
pub Reach-WorksOrRests :
    (n : ℕ) (w : PoolLife)
    → Reach (new_worker_pool n) w
    → w.started ≡ true
    → ((w.cancelled ≡ false) × (w.stats.total_workers + 1 + w.leaving ≤ w.going))
      ⊎ ((w.cancelled ≡ true)
          × ((v : PoolLife) × Reach w v × (v.stats.active_workers ≡ 0) × StopReturns v none))
Reach-WorksOrRests n w r on =
    let inv = Reach-WorkInv n r in
    elim (Bool-cases w.cancelled) [
      | inr live ↦ inl (live, inv.working on live)
      | inl done ↦
          let (v, later, returned) = finish_all w.busy w refl inv.bounded done in
          let rest = Reach-WorkInv n (Reach-Reach r later) in
          inr (done, (v, later, rest.active ∙ no_one v rest.bounded returned, returned))
    ]
