-- ===== src/Sqs/Queue/Receipts.antt =====
-- The receipt that a job carries from its delivery to its deletion.
use service_platform.Prelude.{
  String, ◌≡◌, ◌⊎◌, ◌∙◌, ◌++◌, ap, sym, All, refl, true, false, Option, none, some, List, [], ◌∷◌,
  str_eq, eq_iff, eq_refl, inl, inr, Bool-cases,
}
use service_platform.Prelude.Outcome.{Err, done, ok, err}
use mathlib.Core.Path.{subst}
use service_platform.Entity.{Json, object, Fields, end, field, Job}
use service_platform.RedisQueue.Server.{Codec}
use service_platform.Sqs.Config.{Config}
use service_platform.Sqs.Listener.{Attempt, returns, panics}
use service_platform.Sqs.Message.{set_field, get_field}
use service_platform.Sqs.Queue.{Log, Received}
use service_platform.Sqs.Queue.Delivery.{
  sqs_metadata, with_metadata, Delivery, dequeue_urls, mark_completed_with_metadata,
}

pub get_field-set_field :
    (k : String) (v : Json) (fs : Fields) → get_field k (set_field k v fs) ≡ some v
unfolding get_field set_field
get_field-set_field k v end = simp eq_refl
get_field-set_field k v (field j w fs) = elim (Bool-cases (str_eq j k)) [
  | inl same ↦ rw same (simp eq_refl)
  | inr other ↦ rw (other, other) (get_field-set_field k v fs)
]

get_field-set_other :
    (j k : String) (v : Json)
    → str_eq j k ≡ false
    → (fs : Fields) → get_field k (set_field j v fs) ≡ get_field k fs
unfolding get_field set_field
get_field-set_other j k v other end = rw other refl
get_field-set_other j k v other (field i w fs) = elim (Bool-cases (str_eq i j)) [
  | inl same ↦
      let apart : str_eq i k ≡ false = ap (λ x. str_eq x k) ((eq_iff i j).0 same) ∙ other in
      rw (same, apart, other) refl
  | inr apart ↦ elim (Bool-cases (str_eq i k)) [
    | inl here ↦ rw (apart, here) refl
    | inr there ↦ rw (apart, there) (get_field-set_other j k v other fs)
  ]
]

module _ (codec : Codec) (config : Config) where
  open codec use {Wire, unmarshal}

  -- The job returned is the given one, and so is its payload but for the metadata; and its completion
  -- by that metadata deletes just the message with the given receipt from the given queue.
  pub record CarriesReceipt (url receipt : String) (j : Job) (fs : Fields)
      (result : Attempt (Option Job)) : Type 0 where
    pub fields : Fields
    pub returned : result ≡ returns (some (record j { payload = some fields }))
    pub others :
        (k : String) → str_eq "_sqs_metadata" k ≡ false → get_field k fields ≡ get_field k fs
    pub metadata : Fields
    pub kept : get_field "_sqs_metadata" fields ≡ some (object metadata)
    pub completes :
        (id : String) (l : Log Wire)
        → mark_completed_with_metadata codec config done id metadata l
          ≡ (record l { deleted = (url, receipt) ∷ l.deleted }, none)

  completes-sqs_metadata :
      (url receipt id : String) (l : Log Wire)
      → mark_completed_with_metadata codec config done id (sqs_metadata receipt url) l
        ≡ (record l { deleted = (url, receipt) ∷ l.deleted }, none)
  unfolding mark_completed_with_metadata sqs_metadata get_field
  completes-sqs_metadata url receipt id l = refl

  CarriesReceipt-with_metadata :
      (j : Job) (fs : Fields) (url receipt : String)
      → CarriesReceipt url receipt j fs (with_metadata j (some fs) receipt url)
  unfolding with_metadata
  CarriesReceipt-with_metadata j fs url receipt = record {
    fields = set_field "_sqs_metadata" (object (sqs_metadata receipt url)) fs;
    returned = refl;
    others = λ k other.
        get_field-set_other "_sqs_metadata" k (object (sqs_metadata receipt url)) other fs;
    metadata = sqs_metadata receipt url;
    kept = get_field-set_field "_sqs_metadata" (object (sqs_metadata receipt url)) fs;
    completes = completes-sqs_metadata url receipt;
  }

  -- A queue that hands out nothing: it has no URL, or its server answers with an error or with no
  -- message.
  abbrev pub IsIdle : Delivery Wire → String → Type 0
  IsIdle d url =
      (str_eq url "" ≡ true) ⊎ ((e : Err) × (d.receive url ≡ err e)) ⊎ (d.receive url ≡ ok [])

  dequeue_urls-idle :
      (d : Delivery Wire) (url : String) (urls : List String) (l : Log Wire)
      → IsIdle d url
      → dequeue_urls codec config d (url ∷ urls) l ≡ dequeue_urls codec config d urls l
  unfolding dequeue_urls
  dequeue_urls-idle d url urls l (inl blank) = rw blank refl
  dequeue_urls-idle d url urls l (inr silent) = elim (Bool-cases (str_eq url "")) [
    | inl blank ↦ rw blank refl
    | inr given ↦ elim silent [
      | inl (e, broken) ↦ rw (given, broken) refl
      | inr empty ↦ rw (given, empty) refl
    ]
  ]

  -- Behind any queues that hand out nothing, a readable job with a payload that a queue delivers first
  -- is handed out as it was delivered, but for the metadata in its payload, by which its completion
  -- deletes just that message from that queue.
  pub dequeue_urls-CarriesReceipt :
      (d : Delivery Wire) (before : List String) (url : String) (urls : List String)
      (m : Received Wire) (ms : List (Received Wire)) (j : Job) (fs : Fields) (l : Log Wire)
      → All (IsIdle d) before
      → str_eq url "" ≡ false
      → d.receive url ≡ ok (m ∷ ms)
      → unmarshal m.body ≡ ok j
      → j.payload ≡ some fs
      → CarriesReceipt url m.receipt_handle j fs
          (dequeue_urls codec config d (before ++ url ∷ urls) l).1
  unfolding dequeue_urls
  dequeue_urls-CarriesReceipt d [] url urls m ms j fs l idle given delivered read full =
      rw (given, delivered, read, full)
        (CarriesReceipt-with_metadata (record j { payload = some fs }) fs url m.receipt_handle)
  dequeue_urls-CarriesReceipt d (u ∷ before) url urls m ms j fs l idle given delivered read full =
      subst (CarriesReceipt url m.receipt_handle j fs)
        (ap (λ r. r.1) (sym (dequeue_urls-idle d u (before ++ url ∷ urls) l idle.0)))
        (dequeue_urls-CarriesReceipt d before url urls m ms j fs l idle.1 given delivered read full)

  -- A job whose payload is missing or null in the message that is delivered first makes the program
  -- panic.
  pub dequeue_urls_panics :
      (d : Delivery Wire) (url : String) (urls : List String) (m : Received Wire)
      (ms : List (Received Wire)) (j : Job) (l : Log Wire)
      → str_eq url "" ≡ false
      → d.receive url ≡ ok (m ∷ ms)
      → unmarshal m.body ≡ ok j
      → j.payload ≡ none
      → (dequeue_urls codec config d (url ∷ urls) l).1 ≡ panics
  unfolding dequeue_urls with_metadata
  dequeue_urls_panics d url urls m ms j l given delivered read empty =
      rw (given, delivered, read, empty)
