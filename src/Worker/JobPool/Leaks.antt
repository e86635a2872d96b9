-- ===== src/Worker/JobPool/Leaks.antt =====
-- Which contexts of background jobs can still be cancelled.
use service_platform.Prelude.{
  ℕ, ◌<◌, String, ◌≡◌, ◌≢◌, ◌⊎◌, sym, ap, ◌∙◌, arith, Bool, true, false, Option, none, some, List,
  [], ◌∷◌, ◌++◌, map, any, Assoc, lookup, lookup-insert, lookup-remove, str_eq, ltb→lt, eq_iff,
  eq_refl, ◌==◌, inl, inr, Bool-cases, if◌then◌else◌, ltb,
}
use service_platform.Prelude.Outcome.{Option-cases}
use mathlib.Core.Path.{subst}
use service_platform.Worker.JobPool.Refines.{stop_job-absent, stop_job-there}
use service_platform.Worker.JobPool.{
  JobPool, new_job_pool, new_job, is_job_valid, stop_job, stop_all_jobs, Operation, starts, stops,
  stops_all, apply, apply_all,
}

abbrev pub IsCancelled : ℕ → JobPool → Type 0
IsCancelled c p = any (λ d. d == c) p.cancelled ≡ true

abbrev pub IsListed : ℕ → JobPool → Type 0
IsListed c p = (id : String) × (lookup id p.job_list ≡ some c)

-- Every context that was made has been cancelled, or is in the list, from where it can be.
abbrev pub AreAccounted : JobPool → Type 0
AreAccounted p = (c : ℕ) → c < p.made → IsCancelled c p ⊎ IsListed c p

-- Each start comes with an identifier that is not in the pool.
abbrev pub AreFresh : List Operation → JobPool → Type 0
AreFresh [] p = Unit {0}
AreFresh (starts id ∷ os) p = (is_job_valid id p ≡ false) × AreFresh os (apply (starts id) p)
AreFresh (stops id ∷ os) p = AreFresh os (apply (stops id) p)
AreFresh (stops_all ∷ os) p = AreFresh os (apply stops_all p)

some-injective : {a b : ℕ} → ◌≡◌ {A = Option ℕ} (some a) (some b) → a ≡ b
some-injective h = cc h

not_valid : (id : String) (p : JobPool) → is_job_valid id p ≡ false → lookup id p.job_list ≡ none
unfolding is_job_valid
not_valid id p h = elim (Option-cases (lookup id p.job_list)) [
  | inl absent ↦ absent
  | inr (c, there) ↦ absurd (cc (rw there at h))
]

AreAccounted-new_job :
    (id : String) (p : JobPool)
    → lookup id p.job_list ≡ none
    → AreAccounted p
    → AreAccounted (new_job id p).0
unfolding new_job
AreAccounted-new_job id p absent h c made = elim (Bool-cases (ltb c p.made)) [
  | inl before ↦ elim (h c (ltb→lt c p.made before)) [
    | inl gone ↦ inl gone
    | inr (other, there) ↦ elim (Bool-cases (str_eq id other)) [
      | inl same ↦
          absurd (cc (ap (λ key. lookup key p.job_list) ((eq_iff id other).0 same), there, absent))
      | inr apart ↦ inr (other, lookup-insert id other p.made p.job_list ∙ rw apart there)
    ]
  ]
  | inr new ↦
      let same : p.made ≡ c = ground arith in
      inr (id, lookup-insert id id p.made p.job_list ∙ rw (eq_refl id) (ap some same))
]

AreAccounted-stop_job : (id : String) (p : JobPool) → AreAccounted p → AreAccounted (stop_job id p)
AreAccounted-stop_job id p h = elim (Option-cases (lookup id p.job_list)) [
  | inl absent ↦ subst AreAccounted (sym (stop_job-absent id p absent)) h
  | inr (c, there) ↦ subst AreAccounted (sym (stop_job-there id c p there)) (λ d made.
      elim (h d made) [
        | inl gone ↦ inl (ground arith)
        | inr (other, listed) ↦ elim (Bool-cases (str_eq id other)) [
          | inl same ↦
              let key = ap (λ k. lookup k p.job_list) ((eq_iff id other).0 same) in
              let one : c ≡ d = some-injective (sym there ∙ key ∙ listed) in
              inl (rw one (ground arith))
          | inr apart ↦ inr (other, lookup-remove id other p.job_list ∙ rw apart listed)
        ]
      ])
]

any-append :
    (q : ℕ → Bool) (xs ys : List ℕ)
    → (any q xs ≡ true) ⊎ (any q ys ≡ true)
    → any q (xs ++ ys) ≡ true
any-append q [] ys (inl h) = absurd (cc h)
any-append q [] ys (inr h) = h
any-append q (x ∷ xs) ys (inl h) = ground (arith, any-append q xs ys)
any-append q (x ∷ xs) ys (inr h) = ground (arith, any-append q xs ys)

any-listed :
    (c : ℕ) (id : String) (es : Assoc ℕ)
    → lookup id es ≡ some c
    → any (λ d. d == c) (map (λ e. e.1) es) ≡ true
unfolding lookup
any-listed c id [] h = absurd (cc h)
any-listed c id ((key, d) ∷ es) h = elim (Bool-cases (str_eq key id)) [
  | inl same ↦ let one : d ≡ c = some-injective (rw same at h) in rw one (ground arith)
  | inr apart ↦ ground (arith, any-listed c id es (rw apart at h))
]

-- All contexts are cancelled.
stop_all_jobs-IsCancelled :
    (p : JobPool) → AreAccounted p → (c : ℕ) → c < p.made → IsCancelled c (stop_all_jobs p)
unfolding stop_all_jobs
stop_all_jobs-IsCancelled p h c made = elim (h c made) [
  | inl gone ↦ any-append (λ d. d == c) (map (λ e. e.1) p.job_list) p.cancelled (inr gone)
  | inr (id, there) ↦
      any-append (λ d. d == c) (map (λ e. e.1) p.job_list) p.cancelled
        (inl (any-listed c id p.job_list there))
]

AreAccounted-stop_all_jobs : (p : JobPool) → AreAccounted p → AreAccounted (stop_all_jobs p)
unfolding stop_all_jobs
AreAccounted-stop_all_jobs p h c made = inl (stop_all_jobs-IsCancelled p h c made)

-- Whatever is done to a pool whose contexts are accounted for, where each start comes with an
-- identifier that is not in it, they stay so.
pub apply_all-AreAccounted :
    (os : List Operation) (p : JobPool)
    → AreFresh os p
    → AreAccounted p
    → AreAccounted (apply_all os p)
unfolding apply_all apply
apply_all-AreAccounted [] p fresh h = h
apply_all-AreAccounted (starts id ∷ os) p fresh h =
    apply_all-AreAccounted os (apply (starts id) p) fresh.1
      (AreAccounted-new_job id p (not_valid id p fresh.0) h)
apply_all-AreAccounted (stops id ∷ os) p fresh h =
    apply_all-AreAccounted os (apply (stops id) p) fresh (AreAccounted-stop_job id p h)
apply_all-AreAccounted (stops_all ∷ os) p fresh h =
    apply_all-AreAccounted os (apply stops_all p) fresh (AreAccounted-stop_all_jobs p h)

-- After anything that is done to a new pool, where each start comes with an identifier that is not
-- in it, stopping all jobs leaves no context that was made uncancelled.
pub stop_all_jobs-cancels :
    (os : List Operation) (c : ℕ)
    → AreFresh os new_job_pool
    → c < (apply_all os new_job_pool).made
    → IsCancelled c (stop_all_jobs (apply_all os new_job_pool))
stop_all_jobs-cancels os c fresh made =
    stop_all_jobs-IsCancelled _
      (apply_all-AreAccounted os new_job_pool fresh
        (unfold new_job_pool in λ d none_made. absurd (omega (arith, none_made))))
      c made

-- A start with an identifier that is in the pool makes the context that was there, if it stands under
-- no other one and has not been cancelled, unreachable: it is not cancelled, and it stands under no
-- identifier, so that no stop can cancel it.
pub new_job-leaks :
    (id : String) (c : ℕ) (p : JobPool)
    → lookup id p.job_list ≡ some c
    → ((other : String) → lookup other p.job_list ≡ some c → id ≡ other)
    → any (λ d. d == c) p.cancelled ≡ false
    → c < p.made
    → (any (λ d. d == c) (new_job id p).0.cancelled ≡ false)
      × ((other : String) → lookup other (new_job id p).0.job_list ≢ some c)
unfolding new_job
new_job-leaks id c p there only live before = (
  live,
  λ other listed.
      let found : (if str_eq id other then some p.made else lookup other p.job_list) ≡ some c =
        sym (lookup-insert id other p.made p.job_list) ∙ listed in
      elim (Bool-cases (str_eq id other)) [
        | inl same ↦
            let one : p.made ≡ c = some-injective (rw same at found) in omega (arith, one, before)
        | inr apart ↦ cc (apart, (eq_iff id other).1 (only other (rw apart at found)))
      ],
)
