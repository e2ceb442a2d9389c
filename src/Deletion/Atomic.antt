-- ===== src/Deletion/Atomic.antt =====
-- The deletion of a book: all of its rows, or nothing.
use novel_crawler.Prelude.{
  ℕ, suc, String, false, List, [], ◌∷◌, Option, none, some, ltb, ◌=?◌, =?_refl, Result, ok, err,
  ◌≡◌, refl, ◌⊎◌, inl, inr, arith, Bool-cases, Result-cases,
}
use novel_crawler.Chapter.Rows.{ChapterRow, find_chapter, is_at}
use novel_crawler.Deletion.Manifest.{
  Fault, value_error, Json, decode_deletion_manifest, max_deletion_manifest_bytes,
}
use novel_crawler.Deletion.Disk.{Disk}
use novel_crawler.Deletion.Jobs.{BookDeletionResult, find_job}
use novel_crawler.Deletion.Table.{Unique}
use novel_crawler.Deletion.Reports.{Reports, process-Told}
use novel_crawler.Deletion.Books.{
  BookRow, Catalog, find_book, delete_where, delete_rows, new_job, insert_job, prepare,
  finish_deletion, delete_book,
}

no_chapter :
    (id i : ℕ) (rows : List ChapterRow)
    → find_chapter id i (delete_where (λ row. row.book_id =? id) rows) ≡ none
unfolding find_chapter is_at delete_where
no_chapter id i [] = refl
no_chapter id i (c ∷ rows) = ground (arith, no_chapter id i rows)

other_chapter :
    (id b i : ℕ) (rows : List ChapterRow)
    → (b =? id) ≡ false
    → find_chapter b i (delete_where (λ row. row.book_id =? id) rows) ≡ find_chapter b i rows
unfolding find_chapter is_at delete_where
other_chapter id b i [] other = refl
other_chapter id b i (c ∷ rows) other = ground (arith, other_chapter id b i rows)

no_book :
    (id : ℕ) (books : List BookRow) → find_book id (delete_where (λ b. b.id =? id) books) ≡ none
unfolding find_book delete_where
no_book id [] = refl
no_book id (b ∷ bs) = ground (arith, no_book id bs)

module _ {F : Type 0} (json : Json) (disk : Disk F)
    (build : BookRow → Catalog → Result Fault String) (id : ℕ) (c : Catalog) where
  -- The rows of the book are gone, those of other books are there, and the result tells the truth about the job.
  pub record Deleted (c' : Catalog) (result : BookDeletionResult) : Type 0 where
    pub no_rows : (i : ℕ) → find_chapter id i c'.chapters ≡ none
    pub others :
        (b i : ℕ) → (b =? id) ≡ false → find_chapter b i c'.chapters ≡ find_chapter b i c.chapters
    pub no_entry : find_book id c'.books ≡ none
    pub told : (result.job_id ≡ none) ⊎ Reports json disk (suc c.last_job_id) c'.jobs result

  inserted_found :
      (encoded : String)
      → find_job (suc c.last_job_id) (insert_job encoded c).jobs
        ≡ some (new_job encoded (suc c.last_job_id))
  unfolding find_job
  inserted_found encoded = rw (=?_refl (suc c.last_job_id)) refl

  -- How the transaction ends: it raises, finds no book, or has inserted a job.
  data Prepared : Result Fault (Catalog × Option ℕ) → Type 0 where
    refused : (e : Fault) → Prepared (err e)
    absent : Prepared (ok (delete_rows id c, none))
    inserted :
        (encoded : String)
        → Prepared (ok (delete_rows id (insert_job encoded c), some (suc c.last_job_id)))

  prepare-Prepared : (book : Option BookRow) → Prepared (prepare json disk build id c book)
  unfolding prepare
  prepare-Prepared none = absent
  prepare-Prepared (some book) = elim (Result-cases (build book c)) [
    | inr (e, fails) ↦ rw fails (refused e)
    | inl (encoded, built) ↦
        elim (Bool-cases (ltb max_deletion_manifest_bytes (json.utf8_length encoded))) [
          | inl large ↦ rw (built, large) (refused (value_error "deletion_manifest_too_large"))
          | inr small ↦ elim (Result-cases (decode_deletion_manifest json encoded)) [
            | inr (e, fails) ↦ rw (built, small, fails) (refused e)
            | inl (m, decoded) ↦ rw (built, small, decoded) (inserted encoded)
          ]
        ]
  ]

  -- What a deletion comes to.
  abbrev Ends : F → Catalog × F × Result Fault BookDeletionResult → Type 0
  Ends f out =
      ((e : Fault) × (out ≡ (c, f, err e)))
      ⊎ ((r : BookDeletionResult) × (out.2 ≡ ok r) × Deleted out.0 r)

  finish-Ends :
      (f : F) (prepared : Result Fault (Catalog × Option ℕ))
      → Unique c.jobs
      → find_job (suc c.last_job_id) c.jobs ≡ none
      → Prepared prepared
      → Ends f (finish_deletion json disk build c f prepared)
  unfolding delete_rows
  finish-Ends f _ q new (refused e) = inl (e, refl)
  finish-Ends f _ q new absent = inr (
    _,
    refl,
    record {
      no_rows = λ i. no_chapter id i c.chapters;
      others = λ b i other. other_chapter id b i c.chapters other;
      no_entry = no_book id c.books;
      told = inl refl;
    },
  )
  finish-Ends f _ q new (inserted encoded) = inr (
    _,
    refl,
    record {
      no_rows = λ i. no_chapter id i c.chapters;
      others = λ b i other. other_chapter id b i c.chapters other;
      no_entry = no_book id c.books;
      told = inr (
          process-Told json disk (suc c.last_job_id) (insert_job encoded c).jobs f
            (new_job encoded (suc c.last_job_id)) (new, q) (inserted_found encoded) refl);
    },
  )

  -- `delete_book` raises and leaves the tables and the files as they were, or it returns: no chapter
  -- and no entry of the book is then left, the chapters of other books are there as before, and the
  -- result names no job, or tells the truth about the one that was inserted.
  pub delete_book-Deleted :
      (f : F)
      → Unique c.jobs
      → find_job (suc c.last_job_id) c.jobs ≡ none
      → ((e : Fault) × (delete_book json disk build id c f ≡ (c, f, err e)))
        ⊎ ((r : BookDeletionResult) × ((delete_book json disk build id c f).2 ≡ ok r)
            × Deleted (delete_book json disk build id c f).0 r)
  unfolding delete_book
  delete_book-Deleted f q new =
      finish-Ends f (prepare json disk build id c (find_book id c.books)) q new
        (prepare-Prepared (find_book id c.books))
