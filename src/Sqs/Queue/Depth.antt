-- ===== src/Sqs/Queue/Depth.antt =====
-- The rest of app/pkg/sqs/queue.go: how many messages wait in a queue, and the operations that a
-- queue in Redis has and that only log here. How `strconv` quotes a text in an error is an argument.
use Prim.Native.Char.{code}
use Prim.Native.Nat.{◌+◌, ◌*◌, ◌-◌, ◌^◌}
use Prim.Native.String.{String, ◌++◌ as append}
use service_platform.Prelude.{
  ℕ, Bool, true, false, ◌&&◌, not, Option, none, some, List, [], ◌∷◌, ltb, leb, ◌==◌, str_eq,
  lookup, if◌then◌else◌,
}
use service_platform.Prelude.Outcome.{Err, text, wrap, Result, ok, err, ℤ, pos}
use service_platform.Sqs.Client.{Api, get_queue_attributes}
use service_platform.Sqs.Config.{Config}
use service_platform.Sqs.Queue.{Log, negated, get_queue_url_from_name}

abbrev is_digit : ℕ → Bool
is_digit c = leb 48 c && leb c 57

-- What a text of digits is read as: a number, or more than 64 bits hold, or no number.
pub data Digits : Type 0 where
  value : ℕ → Digits
  too_large : Digits
  invalid : Digits

-- The digits that stand behind a number, from the left; the first mistake ends the reading.
unfoldable pub digits_from : ℕ → String → Digits
digits_from n String.[] = value n
digits_from n (String.◌∷◌ c s) =
    let next = n * 10 + (code c - 48) in
    let rest = digits_from next s in
    if not (is_digit (code c)) then invalid else if leb (2 ^ 64) next then too_large else rest

abbrev digits_of : String → Digits
digits_of String.[] = invalid
digits_of (String.◌∷◌ c s) = digits_from 0 (String.◌∷◌ c s)

-- A sign before the digits: whether it is a minus, and what is behind it.
abbrev signed : String → Bool × String
signed String.[] = (false, "")
signed (String.◌∷◌ c s) =
    if code c == 43 then (false, s) else if code c == 45 then (true, s) else (false, String.◌∷◌ c s)

module _ (quote : String → String) where
  abbrev parse_error : String → String → Err
  parse_error s why = wrap (append "strconv.ParseInt: parsing " (append (quote s) ": ")) (text why)

  -- `strconv.ParseInt(s, 10, 64)`
  unfoldable pub parse_int : String → Result ℤ
  unfolding digits_from
  parse_int s =
      let (minus, rest) = signed s in
      elim (digits_of rest) [
        | invalid ↦ err (parse_error s "invalid syntax")
        | too_large ↦ err (parse_error s "value out of range")
        | value n ↦
            if minus
            then (if leb n (2 ^ 63)
                then ok (negated n)
                else err (parse_error s "value out of range"))
            else if ltb n (2 ^ 63)
            then ok (pos n)
            else err (parse_error s "value out of range")
      ]

  abbrev counted : Result ℤ → Result ℤ
  counted (ok n) = ok n
  counted (err e) = err (wrap "failed to parse message count: " e)

  module _ {S : Type 0} (api : Api S) (config : Config) where
    unfoldable pub get_queue_depth : String → S → Result ℤ
    unfolding get_queue_url_from_name get_queue_attributes parse_int
    get_queue_depth queue s =
        let url = get_queue_url_from_name config queue in
        if str_eq url ""
        then err (text (append "no queue URL configured for queue " queue))
        else elim (get_queue_attributes api url ("ApproximateNumberOfMessages" ∷ []) s) [
          | err e ↦ err (wrap "failed to get queue attributes: " e)
          | ok attributes ↦ elim (lookup "ApproximateNumberOfMessages" attributes) [
            | none ↦ ok (pos 0)
            | some count ↦ counted (parse_int count)
          ]
        ]

module _ {W : Type 0} where
  -- `MarkProcessing`, `MarkCompleted` and `MarkFailed` ask nothing of the server.
  unfoldable pub mark_processing : String → Log W → Log W × Option Err
  mark_processing id l = (l, none)

  unfoldable pub mark_completed : String → Log W → Log W × Option Err
  mark_completed id l = (l, none)

  unfoldable pub mark_failed : String → ℤ → Log W → Log W × Option Err
  mark_failed id delay l = (l, none)

  unfoldable pub get_processing_jobs : Log W → Result (List String)
  get_processing_jobs l = ok []
