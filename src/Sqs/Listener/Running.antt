-- ===== src/Sqs/Listener/Running.antt =====
-- How the listener of app/pkg/sqs/listener.go and the service of app/service/sqs_listener_service.go
-- start and stop. The calls of `Start` that are under way are counted by the point that they have
-- reached: each section under a mutex is one step.
use service_platform.Prelude.{
  ℕ, ◌+◌, ◌-◌, String, Bool, true, false, not, ◌&&◌, Option, none, some, List, [], ◌∷◌, ◌++◌, map,
  filter, str_eq, ltb, if◌then◌else◌,
}
use service_platform.Prelude.Outcome.{Err, text, ℤ, or_default, Result}
use service_platform.Sqs.Message.{SqsMessage}
use service_platform.Sqs.Listener.{
  Message, Inbox, MessageHandler, Processed, processed, crashed, poll_messages,
}
use service_platform.Prelude.Outcome.{Outcome}

pub record ListenerConfig : Type 0 where
  pub queue_urls : List String
  pub worker_count : ℤ

-- The fields of a `Listener` that its own code reads, but for the handler.
pub record Listener : Type 0 where
  pub queue_urls : List String
  pub running : Bool
  pub worker_count : ℕ

unfoldable pub new_listener : ListenerConfig → Listener
new_listener c = record {
  queue_urls = c.queue_urls;
  running = false;
  worker_count = or_default 1 c.worker_count;
}

-- The URLs that the service gives to its listener: those of its configuration, or the default one.
unfoldable pub valid_urls : String → List String → List String
valid_urls default_url [] = filter (λ url. not (str_eq url "")) (default_url ∷ [])
valid_urls default_url (url ∷ urls) = filter (λ u. not (str_eq u "")) (url ∷ urls)

unfoldable pub service_listener : String → List String → Listener
unfolding valid_urls new_listener
service_listener default_url urls =
    new_listener (record { queue_urls = valid_urls default_url urls; worker_count = ℤ.pos 1 })

abbrev pub numbers_below : ℕ → List ℕ
numbers_below ℕ.zero = []
numbers_below (ℕ.suc n) = numbers_below n ++ n ∷ []

-- The workers that `Start` makes: for each queue with a URL, as many as configured.
unfoldable pub spawn_workers : ℕ → List String → List (String × ℕ)
spawn_workers count [] = []
spawn_workers count (url ∷ urls) =
    let rest = spawn_workers count urls in
    if str_eq url "" then rest else map (λ i. (url, i)) (numbers_below count) ++ rest

-- The points that calls of both `Start` have reached.
pub record Life : Type 0 where
  pub service_running : Bool
  pub listener_running : Bool
  pub serving : ℕ  -- the service waits for the end of its context
  pub closing : ℕ  -- the service has asked the listener to stop, and waits for it
  pub called : ℕ  -- the listener's `Start` is about to take the mutex
  pub spawning : ℕ  -- it makes the workers
  pub waiting : ℕ  -- it waits for its context or for the signal
  pub ending : ℕ  -- it is about to clear `running`
  pub draining : ℕ  -- it waits for the workers

abbrev pub at_rest : Life
at_rest = record {
  service_running = false;
  listener_running = false;
  serving = 0;
  closing = 0;
  called = 0;
  spawning = 0;
  waiting = 0;
  ending = 0;
  draining = 0;
}

-- The service's `Start`, until it waits: it hands the call of the listener to a goroutine.
unfoldable pub service_entered : Life → Life × Option Err
service_entered w =
    if w.service_running
    then (w, some (text "SQS listener service is already running"))
    else (record w { service_running = true; serving = w.serving + 1; called = w.called + 1 }, none)

-- The listener's `Start`, in its first section.
unfoldable pub listener_entered : Life → Life × Option Err
listener_entered w =
    if w.listener_running
    then (record w { called = w.called - 1 }, some (text "listener is already running"))
    else (
      record w { listener_running = true; called = w.called - 1; spawning = w.spawning + 1 },
      none,
    )

-- Its last section.
unfoldable pub listener_left : Life → Life
listener_left w = record w {
  listener_running = false;
  ending = w.ending - 1;
  draining = w.draining + 1;
}

unfoldable pub service_left : Life → Life
service_left w = record w { service_running = false; closing = w.closing - 1 }

abbrev pub woken : Life → Life
woken w = record w { waiting = w.waiting - 1; ending = w.ending + 1 }

-- The listener's `Stop`: the signal is sent only if a call of `Start` waits for it just then.
unfoldable pub stop : Life → Life
stop w = if w.listener_running then (if ltb 0 w.waiting then woken w else w) else w

-- The service's `Stop`.
unfoldable pub service_stop : Life → Life
unfolding stop
service_stop w = if w.service_running then stop w else w

pub record ListenerStats : Type 0 where
  pub running : Bool
  pub queue_urls : List String
  pub worker_count : ℕ

unfoldable pub get_stats : Listener → ListenerStats
get_stats l = record {
  running = l.running;
  queue_urls = l.queue_urls;
  worker_count = l.worker_count;
}

-- One round of a worker: what it reads of `running` and of its context, what the server delivers and
-- how it answers, and whether its context ends in the pause behind an error.
pub record Round : Type 0 where
  pub running : Bool
  pub cancelled : Bool
  pub delivered : Result (List Message)
  pub answers : Message → Outcome
  pub cancelled_in_pause : Bool

module _ {S : Type 0} where
  -- Behind a poll: a panic ends the program, and an error pauses the worker.
  unfoldable pub worker_polled : Bool → (Inbox S → Inbox S × Bool) → Processed S → Inbox S × Bool
  worker_polled cancelled_in_pause rest (crashed s) = (s, true)
  worker_polled cancelled_in_pause rest (processed s none) = rest s
  worker_polled cancelled_in_pause rest (processed s (some e)) =
      if cancelled_in_pause then (s, false) else rest s

  -- `runWorker`, along its rounds: the inbox, and whether a panic has ended the program.
  unfoldable pub run_worker :
      MessageHandler S
      → (String → Result SqsMessage)
      → String
      → List Round
      → Inbox S
      → Inbox S × Bool
  unfolding worker_polled
  run_worker handler parse url [] s = (s, false)
  run_worker handler parse url (r ∷ rounds) s =
      let rest = run_worker handler parse url rounds in
      if r.running && not r.cancelled
      then worker_polled r.cancelled_in_pause rest
          (poll_messages handler parse r.answers url r.delivered s)
      else (s, false)
