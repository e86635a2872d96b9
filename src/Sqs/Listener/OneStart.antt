-- ===== src/Sqs/Listener/OneStart.antt =====
-- The steps of the listener and its service, with all who call them, and their invariant.
use service_platform.Prelude.{
  ℕ, ◌+◌, ◌-◌, ◌<◌, ◌≤◌, ◌≡◌, Bool, false, Option, arith, if-cases, ltb, ltb→lt, if◌then◌else◌,
}
use service_platform.Prelude.Outcome.{Err}
use service_platform.Sqs.Listener.Running.{
  Life, at_rest, service_entered, listener_entered, listener_left, service_left, woken, stop,
  service_stop,
}

-- The steps of the service and its listener, with those of anyone who calls them.
pub data Step (w : Life) : Life → Type 0 where
  service_called : Step w (service_entered w).0
  listener_called : 0 < w.called → Step w (listener_entered w).0
  spawned :
      0 < w.spawning → Step w (record w { spawning = w.spawning - 1; waiting = w.waiting + 1 })
  listener_cancelled : 0 < w.waiting → Step w (woken w)
  cleared : 0 < w.ending → Step w (listener_left w)
  returned : 0 < w.draining → Step w (record w { draining = w.draining - 1 })
  stopped : Step w (stop w)
  service_stopped : Step w (service_stop w)
  -- The service's context ends, and the service stops its listener.
  service_cancelled :
      0 < w.serving → Step w (stop (record w { serving = w.serving - 1; closing = w.closing + 1 }))
  -- `wg.Wait` is behind the service when the call that it has made has returned.
  closed :
      0 < w.closing
      → w.called + w.spawning + w.waiting + w.ending + w.draining ≡ 0
      → Step w (service_left w)

pub data Reach (s : Life) : Life → Type 0 where
  here : Reach s s
  next : {t u : Life} → Reach s t → Step t u → Reach s u

abbrev pub count : Bool → ℕ
count b = if b then 1 else 0

count_one : (b : Bool) → count b ≤ 1
count_one b = ground arith

uncounted : (b : Bool) → count b ≡ 0 → b ≡ false
uncounted b h = ground arith

pub record StartInv (w : Life) : Type 0 where
  pub service : w.serving + w.closing ≡ count w.service_running
  pub listener : w.spawning + w.waiting + w.ending ≡ count w.listener_running
  pub owned : w.called + w.spawning + w.waiting + w.ending + w.draining ≤ w.serving + w.closing

StartInv-woken : (w : Life) → 0 < w.waiting → StartInv w → StartInv (woken w)
StartInv-woken w some_call inv = record {
  service = inv.service;
  listener = omega (arith, inv.listener, some_call);
  owned = omega (arith, inv.owned, some_call);
}

StartInv-stop : (w : Life) → StartInv w → StartInv (stop w)
unfolding stop
StartInv-stop w inv =
    if-cases StartInv w.listener_running _ w
      (λ on.
        if-cases StartInv (ltb 0 w.waiting) (woken w) w
          (λ heard. StartInv-woken w (ltb→lt 0 w.waiting heard) inv) (λ unheard. inv))
      (λ idle. inv)

StartInv-service_entered : (w : Life) → StartInv w → StartInv (service_entered w).0
unfolding service_entered
StartInv-service_entered w inv =
    if-cases (λ (a : Life × Option Err). StartInv a.0) w.service_running _ _ (λ on. inv)
      (λ idle. record {
        service = omega (arith, rw idle at inv.service);
        listener = inv.listener;
        owned = omega (arith, inv.owned);
      })

StartInv-listener_entered : (w : Life) → 0 < w.called → StartInv w → StartInv (listener_entered w).0
unfolding listener_entered
StartInv-listener_entered w some_call inv =
    if-cases (λ (a : Life × Option Err). StartInv a.0) w.listener_running _ _
      (λ on. record {
        service = inv.service;
        listener = inv.listener;
        owned = omega (arith, inv.owned, some_call);
      })
      (λ idle. record {
        service = inv.service;
        listener = omega (arith, rw idle at inv.listener);
        owned = omega (arith, inv.owned, some_call);
      })

-- The call that is about to clear `running` is the only one.
StartInv-listener_left : (w : Life) → 0 < w.ending → StartInv w → StartInv (listener_left w)
unfolding listener_left
StartInv-listener_left w some_call inv = record {
  service = inv.service;
  listener = omega (arith, some_call, inv.listener, count_one w.listener_running);
  owned = omega (arith, inv.owned, some_call);
}

Step-StartInv : {w w' : Life} → Step w w' → StartInv w → StartInv w'
unfolding service_left service_stop
Step-StartInv {w = w} service_called inv = StartInv-service_entered w inv
Step-StartInv {w = w} (listener_called h) inv = StartInv-listener_entered w h inv
Step-StartInv {w = w} (spawned h) inv = record {
  service = inv.service;
  listener = omega (arith, inv.listener, h);
  owned = omega (arith, inv.owned, h);
}
Step-StartInv {w = w} (listener_cancelled h) inv = StartInv-woken w h inv
Step-StartInv {w = w} (cleared h) inv = StartInv-listener_left w h inv
Step-StartInv {w = w} (returned h) inv = record {
  service = inv.service;
  listener = inv.listener;
  owned = omega (arith, inv.owned, h);
}
Step-StartInv {w = w} stopped inv = StartInv-stop w inv
Step-StartInv {w = w} service_stopped inv =
    if-cases StartInv w.service_running (stop w) w (λ on. StartInv-stop w inv) (λ idle. inv)
Step-StartInv {w = w} (service_cancelled h) inv = StartInv-stop _ (record {
  service = omega (arith, inv.service, h);
  listener = inv.listener;
  owned = omega (arith, inv.owned, h);
})
Step-StartInv {w = w} (closed h all) inv = record {
  service = omega (arith, h, inv.service, count_one w.service_running);
  listener = inv.listener;
  owned = omega (arith, all);
}

pub Reach-StartInv : {w : Life} → Reach at_rest w → StartInv w
Reach-StartInv here = record { service = omega arith; listener = omega arith; owned = omega arith }
Reach-StartInv (next r st) = Step-StartInv st (Reach-StartInv r)

-- In every state that the service and its listener reach, with any calls of `Stop` and any ends of
-- their contexts: at most one call of the service's `Start` is at work, and one of the listener's,
-- just if they are said to run; and while the service does not run, no call of the listener's
-- `Start` is under way, and the listener does not run.
pub Reach-OneStart :
    {w : Life}
    → Reach at_rest w
    → (w.serving + w.closing ≡ count w.service_running)
      × (w.spawning + w.waiting + w.ending ≡ count w.listener_running)
      × (w.service_running ≡ false
          → (w.called + w.spawning + w.waiting + w.ending + w.draining ≡ 0)
            × (w.listener_running ≡ false))
Reach-OneStart {w = w} r =
    let inv = Reach-StartInv r in
    (
      inv.service,
      inv.listener,
      λ idle.
          let service = rw idle at inv.service in
          (
            omega (arith, inv.owned, service),
            uncounted w.listener_running (omega (arith, inv.owned, inv.listener, service)),
          ),
    )
