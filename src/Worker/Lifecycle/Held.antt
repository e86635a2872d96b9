-- ===== src/Worker/Lifecycle/Held.antt =====
-- Who has a job in hand: an entry of the queue, or one request or worker.
use service_platform.Prelude.{String, ◌≡◌, ◌≢◌, sym, List, [], ◌∷◌, All, All-map}
use service_platform.Prelude.Outcome.{ok}
use service_platform.Entity.{Job}
use service_platform.RedisQueue.Server.{Codec}
use service_platform.Worker.Lifecycle.{Task, Picked, first, behind, task_job}
use service_platform.Worker.Retry.Rows.{Covers}
use service_platform.Worker.Retry.Keeps.{Settled, KeepsRows}
use service_platform.Worker.Lifecycle.Touches.{Pairs, Only, IsOpen, IsOpen-other}
use service_platform.Worker.Lifecycle.Entries.{Distinct}

-- A copy of a job of the table, no row of which has ended.
pub record IsHeld (rows : List Job) (copy : Job) : Type 0 where
  pub covers : Covers rows copy
  pub opened : IsOpen rows copy.id

-- No other task has the job in hand.
abbrev pub NotIn : List Task → Job → Type 0
NotIn ts j = All (λ t. (task_job t).id ≢ j.id) ts

abbrev pub Different : List Task → Type 0
Different [] = Unit {0}
Different (t ∷ ts) = NotIn ts (task_job t) × Different ts

module _ {t : Task} where
  All-Picked :
      (P : Task → Type 0) {ts rest : List Task} → Picked t ts rest → All P ts → P t × All P rest
  All-Picked P first h = (h.0, h.1)
  All-Picked P (behind p) h = let more = All-Picked P p h.1 in (more.0, (h.0, more.1))

  Different-Picked :
      {ts rest : List Task}
      → Picked t ts rest
      → Different ts
      → NotIn rest (task_job t) × Different rest
  Different-Picked first h = (h.0, h.1)
  Different-Picked (behind {u = u} p) h =
      let more = Different-Picked p h.1 in
      let apart = All-Picked (λ v. (task_job v).id ≢ (task_job u).id) p h.0 in
      ((λ same. apart.0 (sym same), more.0), (apart.1, more.1))

module _ (codec : Codec) where
  open codec use {Wire, unmarshal}

  -- An entry reads as a copy that no task has in hand.
  abbrev pub Entry : List Job → List Task → Wire → Type 0
  Entry rows ts e = (copy : Job) → unmarshal e ≡ ok copy → IsHeld rows copy × NotIn ts copy

  -- No entry reads as a copy of the job.
  abbrev pub NotQueued : Job → Wire → Type 0
  NotQueued j e = (copy : Job) → unmarshal e ≡ ok copy → j.id ≢ copy.id

  -- The entries of the queue and the tasks under way have different jobs in hand, none of which has
  -- ended; and each failed job has used up its attempts.
  pub record OneHolder (rows : List Job) (es : List Wire) (ts : List Task) : Type 0 where
    pub settled : All Settled rows
    pub entries : All (Entry rows ts) es
    pub distinct : Distinct codec es
    pub tasks : All (λ t. IsHeld rows (task_job t)) ts
    pub different : Different ts

  -- A job that can be taken in hand.
  pub record IsFree (rows : List Job) (es : List Wire) (ts : List Task) (j : Job) : Type 0 where
    pub held : IsHeld rows j
    pub not_queued : All (NotQueued j) es
    pub not_in : NotIn ts j

  pub OneHolder-Picked :
      {t : Task} {rows : List Job} {es : List Wire} {ts rest : List Task}
      → Picked t ts rest
      → OneHolder rows es ts
      → OneHolder rows es rest × IsFree rows es rest (task_job t)
  OneHolder-Picked {t = t} {rows = rows} {es = es} {ts = ts} {rest = rest} p inv =
      let tasks = All-Picked (λ u. IsHeld rows (task_job u)) p inv.tasks in
      let apart = Different-Picked p inv.different in
      (
        record {
          settled = inv.settled;
          entries =
              All-map (Entry rows ts) (Entry rows rest) es
                (λ e h copy read.
                  let both = h copy read in
                  (both.0, (All-Picked (λ u. (task_job u).id ≢ copy.id) p both.1).1))
                inv.entries;
          distinct = inv.distinct;
          tasks = tasks.1;
          different = apart.1;
        },
        record {
          held = tasks.0;
          not_queued =
              All-map (Entry rows ts) (NotQueued (task_job t)) es
                (λ e h copy read. (All-Picked (λ u. (task_job u).id ≢ copy.id) p (h copy read).1).0)
                inv.entries;
          not_in = apart.0;
        },
      )

  pub OneHolder-add :
      (t : Task) (rows : List Job) (es : List Wire) (ts : List Task)
      → OneHolder rows es ts
      → IsFree rows es ts (task_job t)
      → OneHolder rows es (t ∷ ts)
  OneHolder-add t rows es ts inv free = record {
    settled = inv.settled;
    entries =
        All-map (λ e. Entry rows ts e × NotQueued (task_job t) e) (Entry rows (t ∷ ts)) es
          (λ e both copy read. let old = both.0 copy read in (old.0, (both.1 copy read, old.1)))
          (All-pair (Entry rows ts) (NotQueued (task_job t)) es inv.entries free.not_queued);
    distinct = inv.distinct;
    tasks = (free.held, inv.tasks);
    different = (free.not_in, inv.different);
  }
    where
      All-pair :
          (P Q : Wire → Type 0) (ds : List Wire) → All P ds → All Q ds → All (λ d. P d × Q d) ds
      All-pair P Q [] h k = tt
      All-pair P Q (d ∷ ds) h k = ((h.0, k.0), All-pair P Q ds h.1 k.1)

  IsHeld-other :
      (id : String) (copy : Job) (rows rows' : List Job)
      → KeepsRows rows rows'
      → Pairs (Only id) rows rows'
      → id ≢ copy.id
      → IsHeld rows copy
      → IsHeld rows' copy
  IsHeld-other id copy rows rows' keeps only apart h = record {
    covers = keeps.covers copy h.covers;
    opened = IsOpen-other id copy.id rows rows' only apart h.opened;
  }

  -- The rows of a job that only the acting task has in hand change.
  pub OneHolder-changed :
      (j : Job) (rows rows' : List Job) (es : List Wire) (ts : List Task)
      → KeepsRows rows rows'
      → Pairs (Only j.id) rows rows'
      → OneHolder rows es ts
      → IsFree rows es ts j
      → OneHolder rows' es ts
  OneHolder-changed j rows rows' es ts keeps only inv free = record {
    settled = keeps.settled inv.settled;
    entries = each es inv.entries free.not_queued;
    distinct = inv.distinct;
    tasks = held ts inv.tasks free.not_in;
    different = inv.different;
  }
    where
      each :
          (ds : List Wire) → All (Entry rows ts) ds → All (NotQueued j) ds → All (Entry rows' ts) ds
      each [] h k = tt
      each (d ∷ ds) h k = (
        λ copy read.
            let old = h.0 copy read in
            (IsHeld-other j.id copy rows rows' keeps only (k.0 copy read) old.0, old.1),
        each ds h.1 k.1,
      )

      held :
          (us : List Task)
          → All (λ t. IsHeld rows (task_job t)) us
          → NotIn us j
          → All (λ t. IsHeld rows' (task_job t)) us
      held [] h k = tt
      held (u ∷ us) h k = (
        IsHeld-other j.id (task_job u) rows rows' keeps only (λ same. k.0 (sym same)) h.0,
        held us h.1 k.1,
      )
