-- ===== src/Batch/Witness.antt =====
-- The instances of the theorems on the batches of chapters at a book of two chapters.
use novel_crawler.Prelude.{
  ◌==◌, ◌=?◌, true, false, [], ◌∷◌, none, some, ◌≡◌, refl, arith, ap, ◌∙◌, ok, if◌then◌else◌,
  Result,
}
use novel_crawler.Task.Status.{completed, TaskStatus}
use novel_crawler.Task.Values.{Value, Fields}
use novel_crawler.Task.Checks.{
  validate_metadata, reject_sensitive_metadata, validate_checkpoint_key,
}
use novel_crawler.Task.Records.{TaskRecord}
use novel_crawler.Task.Db.{Db, empty, task_from_row, checkpoint_from_row, find_task, transaction}
use novel_crawler.Task.Repository.{
  get_task, load_checkpoint, save_checkpoint, find_checkpoint, store_checkpoint,
}
use novel_crawler.Task.Repository
use novel_crawler.Task.Calls
use novel_crawler.Task.Witness.{plain, limits, first, late}
use novel_crawler.Chapter.Rows.{
  ChapterRow, pending, find_chapter, count_chapters, is_at, update_chapters,
}
use novel_crawler.Chapter.Claims.{claim_chapter, fence}
use novel_crawler.Chapter.Done.{Library, done_row, Store, mark_done, has_duplicate}
use novel_crawler.Chapter.Reading.{all_chapters, progress}
use novel_crawler.Chapter.Table.{Unique}
use novel_crawler.Chapter.Open.{is_open_at}
use novel_crawler.Chapter.Calls.{perform_all}
use novel_crawler.Batch.Settings.{Settings, check_settings, Processed, Moment, BatchError}
use novel_crawler.Batch.Payload.{Numbers, get_field, positive_int, nonnegative_int}
use novel_crawler.Batch.Loop.{Loop}
use novel_crawler.Batch.Runner.{Prior, begin, call, run_from, context_of, book_of, prior_of}
use novel_crawler.Batch.Passed.{Passed, AllPassed}
use novel_crawler.Batch.Result.{call-begin, call-AllPassed, call_closed}

abbrev one : ChapterRow
one = record {
  book_id = 1;
  chapter_index = 1;
  title = "One";
  status = pending;
  content_path = none;
  content_hash = none;
  error = none;
  claim_owner = none;
  claim_until = none;
  claim_token = none;
  claim_generation = 0;
  attempt_count = 0;
}

abbrev library : Library
library = record {
  sha256 = λ s. s;
  is_blank = λ s. s == "";
  path_of = λ b i. some (if i =? 1 then "books/1/1.txt" else "books/1/2.txt");
}

abbrev numbers : Numbers
numbers = record {
  text_of = λ n. if n =? 1 then "1" else "2";
  natural_of = λ s. some (if s == "1" then 1 else 2);
}

abbrev processor : ChapterRow → Processed
processor c = Processed.text c.title

abbrev settings : Settings
settings = record {
  batch_size = 2;
  checkpoint_key = "k";
  claim_lease_seconds = 300;
  chapter_start = 1;
  chapter_end = some 1;
  reject_duplicate_content = true;
}

abbrev quiet : Moment
quiet = record {
  before_check = [];
  before_claim = [];
  during = [];
  before_save = [];
  claim_time = 10;
  mark_time = 11;
  fail_time = 12;
  token = "t";
  save_time = late;
}

abbrev store : Store
store = record { chapters = one ∷ []; files = [] }

abbrev task : TaskRecord
task = record (task_from_row plain first) {
  metadata = Value.object (Fields.field "book_id" (Value.number "1") Fields.end);
}

abbrev tables : Db
tables = record empty { tasks = first ∷ [] }

abbrev fresh : Prior
fresh = record { version = none; next_index = 1; succeeded = 0; failed = 0 }

settings_valid : check_settings 1 settings ≡ ok tt
unfolding check_settings
settings_valid = refl

begins : begin plain limits library numbers processor settings task tables ≡ ok (1, fresh)
unfolding begin book_of prior_of positive_int get_field load_checkpoint find_checkpoint
    validate_checkpoint_key
begins = refl

abbrev run : Loop × Result BatchError TaskStatus
run =
    run_from plain limits library numbers processor settings
      (context_of plain limits library numbers processor settings task 1) (λ i. quiet) quiet fresh
      tables store

run_completes : run.1 ≡ ok completed
unfolding run_from Repository.save_checkpoint Repository.load_checkpoint Repository.find_checkpoint
    Repository.store_checkpoint Repository.next_checkpoint_version Repository.set_checkpoint
    Repository.get_task find_task Calls.run perform_all transaction task_from_row
    checkpoint_from_row validate_checkpoint_key validate_metadata reject_sensitive_metadata
    get_field nonnegative_int positive_int all_chapters progress claim_chapter mark_done
    find_chapter update_chapters count_chapters has_duplicate fence done_row is_at
run_completes = refl

returns :
    call plain limits library numbers processor settings (λ i. quiet) quiet task tables store
    ≡ (some run.0, ok completed)
returns =
    call-begin plain limits library numbers processor settings (λ i. quiet) quiet task tables store
      1 fresh begins
    ∙ ap (λ r. (some run.0, r)) run_completes

one-Unique : Unique store.chapters
unfolding find_chapter
one-Unique = (refl, tt)

none_before : Passed 1 1 (some 1) 1 store.chapters
none_before i le lt = absurd (omega arith)

call_closed_example : is_open_at 1 1 run.0.store.chapters ≡ false
call_closed_example =
    call_closed plain limits library numbers processor settings (λ i. quiet) quiet task tables store
      1 fresh 1 tt run.0 1 settings_valid begins one-Unique none_before returns (omega arith) refl

call-AllPassed_example : AllPassed 1 1 (some 1) run.0.saves run.0.store.chapters
call-AllPassed_example =
    call-AllPassed plain limits library numbers processor settings (λ i. quiet) quiet task tables
      store 1 fresh 1 tt run.0 settings_valid begins one-Unique none_before (ap (λ r. r.0) returns)
