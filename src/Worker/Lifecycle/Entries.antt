-- ===== src/Worker/Lifecycle/Entries.antt =====
-- The entries of the queue as the identifiers that they stand for.
use service_platform.Prelude.{◌≡◌, ◌≢◌, Option, none, some, List, [], ◌∷◌, All}
use service_platform.Prelude.Outcome.{ok}
use service_platform.Entity.{Job}
use service_platform.RedisQueue.Server.{Codec, split_last}
use service_platform.Worker.Retry.Invariant.{Parted, split_last-Parted}

module _ (codec : Codec) where
  open codec use {Wire, unmarshal}

  -- Two entries do not read as copies of the same job.
  abbrev pub Apart : Wire → Wire → Type 0
  Apart d e = (i j : Job) → unmarshal d ≡ ok i → unmarshal e ≡ ok j → i.id ≢ j.id

  abbrev pub Distinct : List Wire → Type 0
  Distinct [] = Unit {0}
  Distinct (e ∷ es) = All (Apart e) es × Distinct es

  -- What is left behind a pop is distinct, and apart from what was popped.
  abbrev pub Popped : Option (Wire × List Wire) → Type 0
  Popped none = Unit {0}
  Popped (some (y, ys)) = Distinct ys × All (λ e. Apart e y) ys

  Popped-cons :
      (x : Wire) (o : Option (Wire × List Wire))
      → Parted codec (Apart x) o
      → Popped o
      → Popped (elim o [ none ↦ some (x, []) | some (y, ys) ↦ some (y, x ∷ ys) ])
  Popped-cons x none b h = (tt, tt)
  Popped-cons x (some (y, ys)) b h = ((b.1, h.0), (b.0, h.1))

  pub split_last-Popped : (es : List Wire) → Distinct es → Popped (split_last es)
  unfolding split_last
  split_last-Popped [] h = tt
  split_last-Popped (x ∷ es) h =
      Popped-cons x (split_last es) (split_last-Parted codec (Apart x) es h.0)
        (split_last-Popped es h.1)
