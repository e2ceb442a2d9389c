-- ===== src/Deletion/Books.antt =====
-- `delete_book` of storage.py: the rows of a book, and the job for its files.
use novel_crawler.Prelude.{
  ℕ, suc, String, Bool, List, [], ◌∷◌, Option, none, some, ltb, ◌=?◌, if◌then◌else◌, Result, ok,
  err, ◌>>=◌, ◌>>◌, raise_if,
}
use novel_crawler.Chapter.Rows.{ChapterRow}
use novel_crawler.Deletion.Manifest.{
  Fault, value_error, Json, decode_deletion_manifest, max_deletion_manifest_bytes,
}
use novel_crawler.Deletion.Disk.{Disk}
use novel_crawler.Deletion.Jobs.{pending, JobRow, BookDeletionResult, completed}
use novel_crawler.Deletion.Process.{process_deletion_job}

pub record BookRow : Type 0 where
  pub id : ℕ
  pub title : String
  pub site : String

-- The tables that `delete_book` writes; of a log and of an audit only its book is kept.
pub record Catalog : Type 0 where
  pub books : List BookRow
  pub chapters : List ChapterRow
  pub logs : List ℕ
  pub audits : List ℕ
  pub jobs : List JobRow
  -- the AUTOINCREMENT counter of `deletion_jobs`
  pub last_job_id : ℕ

unfoldable pub find_book : ℕ → List BookRow → Option BookRow
find_book id [] = none
find_book id (b ∷ bs) = if b.id =? id then some b else find_book id bs

-- `DELETE FROM ... WHERE book_id=?`
unfoldable pub delete_where {ℓ} : {A : Type ℓ} → (A → Bool) → List A → List A
delete_where where_ [] = []
delete_where where_ (x ∷ xs) =
    let rest = delete_where where_ xs in if where_ x then rest else x ∷ rest

unfoldable pub delete_rows : ℕ → Catalog → Catalog
unfolding delete_where
delete_rows id c = record c {
  chapters = delete_where (λ row. row.book_id =? id) c.chapters;
  logs = delete_where (λ book. book =? id) c.logs;
  audits = delete_where (λ book. book =? id) c.audits;
  books = delete_where (λ b. b.id =? id) c.books;
}

-- `INSERT INTO deletion_jobs(manifest_json, state) VALUES(?, 'pending')`
abbrev pub new_job : String → ℕ → JobRow
new_job encoded id = record {
  id = id;
  manifest_json = encoded;
  state = pending;
  attempt_count = 0;
  error_code = none;
}

abbrev pub insert_job : String → Catalog → Catalog
insert_job encoded c = record c {
  jobs = new_job encoded (suc c.last_job_id) ∷ c.jobs;
  last_job_id = suc c.last_job_id;
}

module _ {F : Type 0} (json : Json) (disk : Disk F)
    (build : BookRow → Catalog → Result Fault String) where
  -- The transaction: the tables that it commits, and the job that it has inserted.
  unfoldable pub prepare : ℕ → Catalog → Option BookRow → Result Fault (Catalog × Option ℕ)
  unfolding delete_rows
  prepare id c none = ok (delete_rows id c, none)
  prepare id c (some book) = do
    encoded ← build book c
    raise_if (ltb max_deletion_manifest_bytes (json.utf8_length encoded))
        (value_error "deletion_manifest_too_large")
    checked ← decode_deletion_manifest json encoded
    ok (delete_rows id (insert_job encoded c), some (suc c.last_job_id))

  abbrev pub finish_deletion :
      Catalog
      → F
      → Result Fault (Catalog × Option ℕ)
      → Catalog × F × Result Fault BookDeletionResult
  finish_deletion c f (err e) = (c, f, err e)
  finish_deletion c f (ok (c', none)) =
      (c', f, ok (record { job_id = none; state = completed; error_code = none }))
  finish_deletion c f (ok (c', some job_id)) =
      let (jobs, f', result) = process_deletion_job json disk job_id c'.jobs f in
      (record c' { jobs = jobs }, f', ok result)

  -- `delete_book`; `build` is `_build_deletion_manifest_locked` with `json.dumps`.
  unfoldable pub delete_book : ℕ → Catalog → F → Catalog × F × Result Fault BookDeletionResult
  unfolding prepare find_book process_deletion_job
  delete_book id c f = finish_deletion c f (prepare id c (find_book id c.books))
