-- ===== src/Batch/Payload.antt =====
-- The payload of the checkpoint of chapter_batch.py, and its readers `_positive_int` and
-- `_nonnegative_int`.
use novel_crawler.Prelude.{
  ℕ, String, ◌==◌, Option, none, some, ltb, if◌then◌else◌, Result, ok, err, ◌>>=◌,
}
use novel_crawler.Task.Values.{Value, Fields}
use novel_crawler.Batch.Settings.{BatchError, value_error}

-- The JSON texts of integers: of a natural number, and back; `none` for any other number.
pub record Numbers : Type 0 where
  pub text_of : ℕ → String
  pub natural_of : String → Option ℕ

-- `payload.get(key)`
unfoldable pub get_field : String → Fields → Option Value
get_field key Fields.end = none
get_field key (Fields.field k v fs) = if k == key then some v else get_field key fs

abbrev pub payload_get : String → Value → Option Value
payload_get key (Value.object fields) = get_field key fields
payload_get key _ = none

abbrev pub or_value_error : String → Option ℕ → Result BatchError ℕ
or_value_error error none = err (value_error error)
or_value_error error (some n) = ok n

abbrev pub positive : ℕ → Option ℕ
positive n = if ltb 0 n then some n else none

module _ (numbers : Numbers) where
  -- An `int` that is no `bool` and is not negative.
  abbrev pub natural : Option Value → Option ℕ
  natural (some (Value.number s)) = numbers.natural_of s
  natural _ = none

  unfoldable pub nonnegative_int : Option Value → String → Result BatchError ℕ
  nonnegative_int value error = or_value_error error (natural value)

  unfoldable pub positive_int : Option Value → String → Result BatchError ℕ
  positive_int value error = do
    n ← or_value_error error (natural value)
    or_value_error error (positive n)

  -- The dict that `_save` writes.
  abbrev pub payload : ℕ → ℕ → ℕ → Fields
  payload next_index succeeded failed =
      Fields.field "failed" (Value.number (numbers.text_of failed)) (
        Fields.field "next_index" (Value.number (numbers.text_of next_index))
          (Fields.field "succeeded" (Value.number (numbers.text_of succeeded)) Fields.end))
