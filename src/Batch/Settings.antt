-- ===== src/Batch/Settings.antt =====
-- novel_crawler/task_engine/chapter_batch.py: the parameters of `ChapterBatchRunner`, its errors, what
-- its processor does, and what other threads and processes do between its steps. A time is a natural
-- number of clock ticks, `second` of them to the second.
use novel_crawler.Prelude.{
  ℕ, ◌*◌, String, Bool, true, not, ◌&&◌, ◌||◌, List, Option, none, some, leb, Result, ◌>>◌,
  raise_if,
}
use novel_crawler.Task.Records.{TaskError}
use novel_crawler.Task.Calls.{Call}
use novel_crawler.Chapter.Rows.{ChapterError}
use novel_crawler.Chapter.Calls.{ChapterCall}

pub record Settings : Type 0 where
  pub batch_size : ℕ
  pub checkpoint_key : String
  pub claim_lease_seconds : ℕ
  pub chapter_start : ℕ
  pub chapter_end : Option ℕ
  pub reject_duplicate_content : Bool

-- `TaskControlRequested`, `TerminalTaskError`, a `BaseException` that is no `Exception`, `ValueError`,
-- and what the repository and the store raise.
pub data BatchError : Type 0 where
  task_control_requested terminal_task_error interrupted : BatchError
  value_error : String → BatchError
  task_error : TaskError → BatchError
  chapter_error : ChapterError → BatchError

-- A call of the processor: a text, or an exception; `failure` is any other `Exception`, the
-- `TypeError` for a result that is no text too.
pub data Processed : Type 0 where
  text : String → Processed
  control terminal interrupt failure : Processed

abbrev pub is_end_valid : ℕ → Option ℕ → Bool
is_end_valid start none = true
is_end_valid start (some end) = leb start end && leb end 10000000

-- `ChapterBatchRunner.__init__`, with `second` ticks to the second.
unfoldable pub check_settings : ℕ → Settings → Result BatchError Unit
check_settings second s = do
  raise_if (not (leb 1 s.batch_size && leb s.batch_size 1000))
      (value_error "batch_size must be between 1 and 1000")
  raise_if (not (leb second s.claim_lease_seconds && leb s.claim_lease_seconds (3600 * second)))
      (value_error "claim_lease_seconds must be between 1 and 3600")
  raise_if
      (not (leb 1 s.chapter_start && leb s.chapter_start 10000000)
        || not (is_end_valid s.chapter_start s.chapter_end))
      (value_error "chapter_range_invalid")

-- What happens around one chapter: the calls of others before the control is checked, before the
-- claim, while the processor runs and before the checkpoint; the times of the calls on the
-- store; the token of the claim; the time of the checkpoint.
pub record Moment : Type 0 where
  pub before_check : List Call
  pub before_claim : List ChapterCall
  pub during : List ChapterCall
  pub before_save : List Call
  pub claim_time : ℕ
  pub mark_time : ℕ
  pub fail_time : ℕ
  pub token : String
  pub save_time : String
