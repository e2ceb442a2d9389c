-- ===== src/Chapter/Done.antt =====
-- `Storage.mark_done` and `_commit_done`: the text of a chapter goes to its file, and then the row is
-- marked done in the transaction that has reserved the table.
use novel_crawler.Prelude.{
  ℕ, String, ◌==◌, Bool, true, false, not, ◌&&◌, List, [], ◌∷◌, Option, none, some, is_some, ◌=?◌,
  if◌then◌else◌, Result, ok, err, ◌>>◌, raise_if,
}
use novel_crawler.Chapter.Rows.{
  ChapterRow, ClaimLease, ChapterError, done, chapter_not_found, chapter_claim_conflict,
  chapter_content_empty, chapter_content_conflict, chapter_content_duplicate, is_done, find_chapter,
  update_chapters, count_chapters, text_is,
}
use novel_crawler.Chapter.Claims.{validate_claim, fence}

-- What `mark_done` takes from elsewhere: `hashlib.sha256(content.encode("utf-8")).hexdigest()`,
-- `not content.strip()`, and the path that the title of the book and the index give
-- (`get_book`, `chapter_content_dir`); `none` where the book is not there.
pub record Library : Type 0 where
  pub sha256 : String → String
  pub is_blank : String → Bool
  pub path_of : ℕ → ℕ → Option String

-- The table and the files, by their paths.
pub record Store : Type 0 where
  pub chapters : List ChapterRow
  pub files : List (String × String)

unfoldable pub read_file : String → List (String × String) → Option String
read_file path [] = none
read_file path ((p, text) ∷ fs) = if p == path then some text else read_file path fs

-- `path.unlink(missing_ok=True)`
unfoldable pub unlink : String → List (String × String) → List (String × String)
unlink path [] = []
unlink path ((p, text) ∷ fs) =
    let rest = unlink path fs in if p == path then rest else (p, text) ∷ rest

-- `os.replace(temporary, path)` of a temporary file that holds the text.
unfoldable pub replace_file : String → String → List (String × String) → List (String × String)
unfolding unlink
replace_file path text fs = (path, text) ∷ unlink path fs

-- The columns that `_commit_done` sets.
unfoldable pub done_row : String → String → String → ChapterRow → ChapterRow
done_row title path digest row = record row {
  title = title;
  status = done;
  content_path = some path;
  content_hash = some digest;
  error = none;
  claim_owner = none;
  claim_until = none;
  claim_token = none;
}

-- The SELECT for another chapter of the book that is done with the same text.
unfoldable pub has_duplicate : ℕ → ℕ → String → List ChapterRow → Bool
has_duplicate book index digest [] = false
has_duplicate book index digest (c ∷ cs) =
    if (c.book_id =? book && not (c.chapter_index =? index))
      && (is_done c.status && text_is c.content_hash digest)
    then true
    else has_duplicate book index digest cs

-- `row["content_path"] and Path(row["content_path"]).is_file()`
unfoldable pub has_file : Option String → List (String × String) → Bool
unfolding read_file
has_file none fs = false
has_file (some path) fs = not (path == "") && is_some (read_file path fs)

abbrev pub path_or_empty : Option String → String
path_or_empty none = ""
path_or_empty (some path) = path

module _ (lib : Library) where
  -- `_commit_done`, and the handler that removes the file where it raises.
  unfoldable pub commit_done :
      ℕ
      → ℕ
      → String
      → String
      → String
      → Option ClaimLease
      → ℕ
      → Store
      → Store × Result ChapterError String
  unfolding fence done_row unlink
  commit_done book index title path digest claim now store =
      if count_chapters book index (fence claim now) store.chapters =? 1
      then (
        record store {
          chapters =
              update_chapters book index (fence claim now) (done_row title path digest)
                store.chapters;
        },
        ok path,
      )
      else (record store { files = unlink path store.files }, err chapter_claim_conflict)

  -- The guards of `mark_done` on the row that it has read, up to the test for a done chapter.
  unfoldable pub done_guards :
      ℕ → ℕ → String → Option ClaimLease → ℕ → ChapterRow → Result ChapterError Unit
  unfolding validate_claim
  done_guards book index content claim now row = do
    validate_claim row claim now book index
    raise_if (lib.is_blank content) chapter_content_empty

  -- The branch for a chapter that is done already.
  unfoldable pub done_again : String → ChapterRow → Store → Store × Result ChapterError String
  unfolding has_file
  done_again digest row store =
      if text_is row.content_hash digest && has_file row.content_path store.files
      then (store, ok (path_or_empty row.content_path))
      else (store, err chapter_content_conflict)

  -- The branch that writes the file and commits.
  unfoldable pub done_first :
      ℕ
      → ℕ
      → String
      → String
      → Option ClaimLease
      → ℕ
      → Bool
      → Store
      → Store × Result ChapterError String
  unfolding commit_done has_duplicate replace_file
  done_first book index title content claim now reject_duplicate_content store =
      if reject_duplicate_content && has_duplicate book index (lib.sha256 content) store.chapters
      then (store, err chapter_content_duplicate)
      else elim (lib.path_of book index) [
        | none ↦ (store, err chapter_not_found)
        | some path ↦
            commit_done book index title path (lib.sha256 content) claim now
              (record store { files = replace_file path content store.files })
      ]

  unfoldable pub done_checked :
      ℕ
      → ℕ
      → String
      → String
      → Option ClaimLease
      → ℕ
      → Bool
      → Store
      → ChapterRow
      → Result ChapterError Unit
      → Store × Result ChapterError String
  unfolding done_again done_first
  done_checked book index title content claim now reject store row (err e) = (store, err e)
  done_checked book index title content claim now reject store row (ok u) =
      if is_done row.status
      then done_again (lib.sha256 content) row store
      else done_first book index title content claim now reject store

  unfoldable pub done_found :
      ℕ
      → ℕ
      → String
      → String
      → Option ClaimLease
      → ℕ
      → Bool
      → Store
      → Option ChapterRow
      → Store × Result ChapterError String
  unfolding done_checked done_guards
  done_found book index title content claim now reject store none = (store, err chapter_not_found)
  done_found book index title content claim now reject store (some row) =
      done_checked book index title content claim now reject store row
        (done_guards book index content claim now row)

  -- `mark_done(book_id, chapter, content, claim=..., now=..., reject_duplicate_content=...)` for the
  -- chapter of this index and title.
  unfoldable pub mark_done :
      ℕ
      → ℕ
      → String
      → String
      → Option ClaimLease
      → ℕ
      → Bool
      → Store
      → Store × Result ChapterError String
  unfolding done_found
  mark_done book index title content claim now reject store =
      done_found book index title content claim now reject store
        (find_chapter book index store.chapters)
