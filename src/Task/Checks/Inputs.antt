-- ===== src/Task/Checks/Inputs.antt =====
-- The validators of arguments. `isinstance` tests are the types of the arguments.
use novel_crawler.Prelude.{
  ℕ, String, len, Bool, false, not, ◌&&◌, ◌||◌, List, [], ◌∷◌, Option, none, some, ltb, leb, ◌=?◌,
  ◌==◌, if◌then◌else◌, all, any, length, codes, Result, ok, err, ◌>>=◌, ◌>>◌, raise_if, or_raise,
}
use novel_crawler.Task.Values.{Value, Fields}
use novel_crawler.Task.Records.{TaskError, input_error, value_error}
use novel_crawler.Task.Python.{Python}
use novel_crawler.Task.Checks.Sensitive.{
  contains_sensitive_text, reject_sensitive_metadata, is_given,
}

-- `self._max_metadata_bytes` and `self._max_error_length`
pub record Limits : Type 0 where
  pub max_metadata_bytes : ℕ
  pub max_error_length : ℕ

-- The tests of `TaskRepository.__init__`, in its order.
unfoldable pub check_limits : ℕ → Limits → Result TaskError Unit
check_limits busy_timeout_ms limits = do
  raise_if (ltb busy_timeout_ms 1 || ltb 60000 busy_timeout_ms)
      (value_error "busy_timeout_ms must be between 1 and 60000")
  raise_if (ltb limits.max_metadata_bytes 2 || ltb 1000000 limits.max_metadata_bytes)
      (value_error "max_metadata_bytes must be between 2 and 1000000")
  raise_if (ltb limits.max_error_length 1 || ltb 10000 limits.max_error_length)
      (value_error "max_error_length must be between 1 and 10000")

unfoldable pub is_lower : ℕ → Bool
is_lower c = leb b'a' c && leb c b'z'

unfoldable pub is_ascii_digit : ℕ → Bool
is_ascii_digit c = leb b'0' c && leb c b'9'

unfoldable pub is_upper : ℕ → Bool
is_upper c = leb b'A' c && leb c b'Z'

-- A character class repeated up to 63 times behind a first lower-case letter.
unfoldable pub is_identifier : (ℕ → Bool) → List ℕ → Bool
unfolding is_lower
is_identifier in_class [] = false
is_identifier in_class (c ∷ s) = is_lower c && (leb (length s) 63 && all in_class s)

-- `_ERROR_CODE`, `^[a-z][a-z0-9_]{0,63}$`, as a full match.
unfoldable pub is_error_code : String → Bool
unfolding is_identifier is_lower is_ascii_digit
is_error_code value =
    is_identifier (λ c. is_lower c || (is_ascii_digit c || c =? b'_')) (codes value)

-- `_CHECKPOINT_KEY`, `^[a-z][a-z0-9_-]{0,63}$`, as a full match.
unfoldable pub is_checkpoint_key : String → Bool
unfolding is_identifier is_lower is_ascii_digit
is_checkpoint_key value =
    is_identifier (λ c. is_lower c || (is_ascii_digit c || (c =? b'_' || c =? b'-'))) (codes value)

-- `_validate_error_code`
unfoldable pub validate_error_code : Option String → Result TaskError (Option String)
unfolding is_error_code
validate_error_code none = ok none
validate_error_code (some value) =
    if is_error_code value then ok (some value) else err (input_error "error_code_invalid")

-- `_validate_checkpoint_key`
unfoldable pub validate_checkpoint_key : String → Result TaskError String
unfolding is_checkpoint_key
validate_checkpoint_key value =
    if is_checkpoint_key value then ok value else err (input_error "checkpoint_key_invalid")

-- The pattern `[A-Za-z0-9_.-]+` of an owner.
unfoldable pub is_owner_character : ℕ → Bool
unfolding is_lower is_upper is_ascii_digit
is_owner_character c =
    is_upper c || (is_lower c || (is_ascii_digit c || (c =? b'_' || (c =? b'.' || c =? b'-'))))

module _ (py : Python) where
  -- `_validate_source_url`
  unfoldable pub validate_source_url : String → Result TaskError String
  unfolding is_given
  validate_source_url value = do
    raise_if (value == "" || ltb 2048 (length (codes value))) (input_error "source_url_invalid")
    parsed ← or_raise (py.urlsplit value) (value_error "urlsplit")
    raise_if
        (not (parsed.scheme == "http" || parsed.scheme == "https")
          || (not (is_given parsed.hostname)
              || (is_given parsed.username || is_given parsed.password)))
        (input_error "source_url_invalid")
    ok value

  -- `_validate_optional_text(value, name, maximum, reject_sensitive=reject)`; the two messages are given
  unfoldable pub validate_optional_text :
      Option String → String → String → ℕ → Bool → Result TaskError (Option String)
  unfolding contains_sensitive_text
  validate_optional_text none invalid sensitive maximum reject = ok none
  validate_optional_text (some value) invalid sensitive maximum reject = do
    raise_if (ltb maximum (length (codes value)) || any (λ c. c =? 0) (codes value))
        (input_error invalid)
    raise_if (reject && contains_sensitive_text py false value) (input_error sensitive)
    ok (some value)

  -- `_validate_interaction_lease`
  unfoldable pub validate_interaction_lease : String → ℕ → String → Result TaskError Unit
  unfolding is_owner_character
  validate_interaction_lease owner_id owner_epoch timestamp = do
    raise_if
        (ltb (length (codes owner_id)) 16
          || (ltb 128 (length (codes owner_id)) || not (all is_owner_character (codes owner_id))))
        (input_error "interaction_lease_owner_invalid")
    raise_if (ltb (length (codes timestamp)) 20 || ltb 64 (length (codes timestamp)))
        (input_error "interaction_lease_time_invalid")
    raise_if (not (py.is_aware_timestamp timestamp)) (input_error "interaction_lease_time_invalid")

  -- `dict(metadata or {})`
  unfoldable pub metadata_or_empty : Option Fields → Fields
  metadata_or_empty none = Fields.end
  metadata_or_empty (some fs) = fs

  -- `self._validate_metadata(metadata)`: the decoded value and its encoding. The `except` clause
  -- turns every `TaskInputError` of the first two steps, a `ValueError`, into `metadata_invalid`.
  unfoldable pub validate_metadata : Limits → Option Fields → Result TaskError (Value × String)
  unfolding reject_sensitive_metadata metadata_or_empty
  validate_metadata limits metadata = do
    let value = Value.object (metadata_or_empty metadata)
    encoded ← elim (reject_sensitive_metadata py false value) [
      | ok _ ↦ or_raise (py.dumps value) (input_error "metadata_invalid")
      | err e ↦ err (input_error "metadata_invalid")
    ]
    raise_if (ltb limits.max_metadata_bytes (len encoded)) (input_error "metadata_too_large")
    ok (py.loads encoded, encoded)
