-- ===== src/RedisQueue/Fifo.antt =====
-- The order in which the queue of app/pkg/queue/queue.go hands out jobs.
use mathlib.Core.List.{append-nil, append_assoc, reverse, reverse-reverse, reverse-append}
use service_platform.Prelude.{
  ℕ, zero, suc, String, ◌≡◌, refl, sym, ap, ◌∙◌, arith, Option, some, List, [], ◌∷◌, ◌++◌, map,
  length, All,
}
use service_platform.Prelude.Outcome.{done, Call, Result, ok}
use service_platform.Entity.{Job}
use service_platform.RedisQueue.{
  queue_key, schedule_at, enqueue_commands, enqueue, decode, dequeue, get_priority_queues,
}
use service_platform.RedisQueue.Server.{Codec, RoundTrips, Redis, lpush, zadd, split_last, brpop}

module _ {W : Type 0} where
  -- The entries of the queue, the next one first.
  abbrev pub waiting : Redis W → List W
  waiting r = reverse (r.lists queue_key)

  split_last-snoc : (ys : List W) (y : W) → split_last (ys ++ y ∷ []) ≡ some (y, ys)
  unfolding split_last
  split_last-snoc [] y = refl
  split_last-snoc (x ∷ ys) y = rw (split_last-snoc ys y)

  unreversed : (xs rest : List W) (y : W) → reverse xs ≡ y ∷ rest → xs ≡ reverse rest ++ y ∷ []
  unreversed xs rest y h = sym (reverse-reverse xs) ∙ ap reverse h ∙ reverse-append (y ∷ []) rest

  lists-schedule_at :
      (id : String) (now : ℕ) (t : Option ℕ) (r : Redis W)
      → (schedule_at id now t r).lists ≡ r.lists
  unfolding zadd
  lists-schedule_at id now t r = ground arith

module _ (codec : Codec) where
  open codec use {Wire, marshal, unmarshal}

  waiting-enqueue_commands :
      (now : ℕ) (j : Job) (w : Wire) (r : Redis Wire)
      → waiting (enqueue_commands codec now j w r) ≡ waiting r ++ w ∷ []
  unfolding enqueue_commands lpush
  waiting-enqueue_commands now j w r =
      rw (lists-schedule_at (codec.uuid_bytes j.id) now j.scheduled_at (lpush queue_key w r))
        (reverse-append (w ∷ []) (r.lists queue_key))

  -- Where the server answers, a job that can be written is put behind those that wait.
  pub waiting-enqueue :
      (c : Call) (j : Job) (w : Wire) (r : Redis Wire)
      → c.outcome ≡ done
      → marshal j ≡ ok w
      → waiting (enqueue codec c j r).0 ≡ waiting r ++ w ∷ []
  unfolding enqueue
  waiting-enqueue c j w r answered written =
      rw (written, answered) (waiting-enqueue_commands c.at j w r)

  popped-waiting :
      (w : Wire) (rest : List Wire) (r : Redis Wire)
      → split_last (r.lists queue_key) ≡ some (w, reverse rest)
      → let (r', got) = dequeue codec done get_priority_queues r in
        (got ≡ decode codec w) × (waiting r' ≡ rest)
  unfolding dequeue brpop get_priority_queues
  popped-waiting w rest r h = rw h (refl, reverse-reverse rest)

  -- The entry that has waited longest is handed out, and the others stay in their order.
  pub waiting-dequeue :
      (w : Wire) (rest : List Wire) (r : Redis Wire)
      → waiting r ≡ w ∷ rest
      → let (r', got) = dequeue codec done get_priority_queues r in
        (got ≡ decode codec w) × (waiting r' ≡ rest)
  waiting-dequeue w rest r h =
      popped-waiting w rest r
        (rw (unreversed (r.lists queue_key) rest w h) (split_last-snoc (reverse rest) w))

  -- Jobs put into the queue one after the other, at the given times.
  pub enqueue_all : List (ℕ × Job) → Redis Wire → Redis Wire
  enqueue_all [] r = r
  enqueue_all ((t, j) ∷ js) r =
      enqueue_all js (enqueue codec (record { outcome = done; at = t }) j r).0

  -- What as many takes as given hand out.
  pub dequeue_all : ℕ → Redis Wire → List (Result (Option Job))
  dequeue_all zero r = []
  dequeue_all (suc n) r =
      let (r', got) = dequeue codec done get_priority_queues r in got ∷ dequeue_all n r'

  abbrev pub CanWrite : ℕ × Job → Type 0
  CanWrite tj = (w : Wire) × (marshal tj.1 ≡ ok w)

  wires : (js : List (ℕ × Job)) → All CanWrite js → List Wire
  wires [] h = []
  wires (tj ∷ js) h = h.0.0 ∷ wires js h.1

  waiting-enqueue_all :
      (js : List (ℕ × Job)) (h : All CanWrite js) (r : Redis Wire)
      → waiting (enqueue_all js r) ≡ waiting r ++ wires js h
  unfolding enqueue_all wires
  waiting-enqueue_all [] h r = sym (append-nil (waiting r))
  waiting-enqueue_all ((t, j) ∷ js) h r =
      let c : Call = record { outcome = done; at = t } in
      waiting-enqueue_all js h.1 _
      ∙ ap (λ ws. ws ++ wires js h.1) (waiting-enqueue c j h.0.0 r refl h.0.1)
      ∙ append_assoc (waiting r) (h.0.0 ∷ []) (wires js h.1)

  decode-written :
      RoundTrips codec → (j : Job) (w : Wire) → marshal j ≡ ok w → decode codec w ≡ ok (some j)
  unfolding decode
  decode-written json j w written = rw (json.reads_back j w written, decode)

  dequeue_all-waiting :
      (json : RoundTrips codec) (js : List (ℕ × Job)) (h : All CanWrite js) (r : Redis Wire)
      → waiting r ≡ wires js h
      → dequeue_all (length js) r ≡ map (λ tj. ok (some tj.1)) js
  unfolding dequeue_all wires
  dequeue_all-waiting json [] h r e = refl
  dequeue_all-waiting json ((t, j) ∷ js) h r e =
      let next = waiting-dequeue h.0.0 (wires js h.1) r e in
      cc (
        next.0,
        decode-written json j h.0.0 h.0.1,
        dequeue_all-waiting json js h.1 (dequeue codec done get_priority_queues r).0 next.1,
      )

  -- The jobs put into an empty queue, at any times and with any schedule, come out in the same
  -- order and as they were, where the server answers and each job can be written and reads back.
  pub fifo :
      (json : RoundTrips codec) (js : List (ℕ × Job)) (r : Redis Wire)
      → All CanWrite js
      → r.lists queue_key ≡ []
      → dequeue_all (length js) (enqueue_all js r) ≡ map (λ tj. ok (some tj.1)) js
  fifo json js r h empty =
      dequeue_all-waiting json js h (enqueue_all js r)
        (waiting-enqueue_all js h r ∙ ap (λ ws. reverse ws ++ wires js h) empty)
