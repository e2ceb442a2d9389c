-- ===== src/Executor/Notes.antt =====
-- What the repository refuses in the note of a transition is no conflict of writers.
use novel_crawler.Prelude.{
  ℕ, String, Bool, true, false, ◌||◌, Option, none, some, ◌≡◌, ◌⊎◌, inl, inr, arith, Result, ok,
  err, ◌>>=◌,
}
use novel_crawler.Task.Values.{Fields}
use novel_crawler.Task.Python.{Python}
use novel_crawler.Task.Checks.{
  Limits, validate_optional_text, validate_error_code, validate_metadata,
}
use novel_crawler.Task.Records.{TaskError}
use novel_crawler.Task.Repository.{TransitionOptions, validate_note}
use novel_crawler.Executor.Requests.{is_version_conflict, is_invalid_transition}

bind_fails :
    {A B : Type 0} (m : Result TaskError A) (f : A → Result TaskError B) (e : TaskError)
    → (m >>= f) ≡ err e
    → (m ≡ err e) ⊎ ((a : A) × (f a ≡ err e))
bind_fails (ok a) f e h = inr (a, h)
bind_fails (err e') f e h = inl (ground arith)

abbrev pub is_conflict : TaskError → Bool
is_conflict e = is_version_conflict e || is_invalid_transition e

module _ (py : Python) (limits : Limits) where
  text_fails :
      (value : Option String) (invalid sensitive : String) (maximum : ℕ) (reject : Bool)
      (e : TaskError)
      → validate_optional_text py value invalid sensitive maximum reject ≡ err e
      → is_conflict e ≡ false
  unfolding validate_optional_text
  text_fails none invalid sensitive maximum reject e h = cc
  text_fails (some value) invalid sensitive maximum reject e h = ground arith

  code_fails :
      (code : Option String) (e : TaskError)
      → validate_error_code code ≡ err e
      → is_conflict e ≡ false
  unfolding validate_error_code
  code_fails none e h = cc
  code_fails (some code) e h = ground arith

  metadata_fails :
      (metadata : Option Fields) (e : TaskError)
      → validate_metadata py limits metadata ≡ err e
      → is_conflict e ≡ false
  unfolding validate_metadata
  metadata_fails metadata e h = ground arith

  -- What is wrong with a note is no conflict: `_record_failure` does not try again.
  pub note_fails :
      (options : TransitionOptions) (e : TaskError)
      → validate_note py limits options ≡ err e
      → is_conflict e ≡ false
  unfolding validate_note
  note_fails options e h =
      elim (bind_fails
        (validate_optional_text py options.reason "reason_invalid" "reason_sensitive" 256 true) _ e
        h) [
          | inl bad ↦ text_fails options.reason "reason_invalid" "reason_sensitive" 256 true e bad
          | inr (reason, h1) ↦ elim (bind_fails (validate_error_code options.error_code) _ e h1) [
            | inl bad ↦ code_fails options.error_code e bad
            | inr (error_code, h2) ↦
                elim (bind_fails
                  (validate_optional_text py options.error_message "error_message_invalid"
                    "error_message_sensitive" limits.max_error_length true)
                  _ e h2) [
                    | inl bad ↦
                        text_fails options.error_message "error_message_invalid"
                          "error_message_sensitive" limits.max_error_length true e bad
                    | inr (error_message, h3) ↦
                        elim (bind_fails (validate_metadata py limits options.metadata) _ e h3) [
                          | inl bad ↦ metadata_fails options.metadata e bad
                          | inr (encoded, h4) ↦ cc
                        ]
                  ]
          ]
        ]
