-- ===== src/Chapter/Reading.antt =====
-- `_validate_chapter_range`, `all_chapters`, `pending_chapters` and `progress` of the content store.
use novel_crawler.Prelude.{
  ℕ, suc, ◌+◌, Bool, true, false, not, ◌&&◌, List, [], ◌∷◌, Option, none, some, leb, ltb, ◌=?◌,
  length, if◌then◌else◌, Result, ok, ◌>>=◌, ◌>>◌, raise_if, ◌≡◌, refl, arith,
}
use novel_crawler.Chapter.Rows.{
  ChapterRow, ChapterStatus, pending, ChapterError, chapter_range_invalid, is_done, is_failed,
}

-- `_MAX_CHAPTER_INDEX`
abbrev pub max_chapter_index : ℕ
max_chapter_index = 10000000

-- A bound is left out, or is in range.
abbrev pub is_bound : Option ℕ → Bool
is_bound none = true
is_bound (some n) = leb 1 n && leb n max_chapter_index

abbrev pub is_crossed : Option ℕ → Option ℕ → Bool
is_crossed (some start) (some end) = ltb end start
is_crossed _ _ = false

-- `_validate_chapter_range`
unfoldable pub validate_chapter_range : Option ℕ → Option ℕ → Result ChapterError Unit
validate_chapter_range start end = do
  raise_if (not (is_bound start)) chapter_range_invalid
  raise_if (not (is_bound end)) chapter_range_invalid
  raise_if (is_crossed start end) chapter_range_invalid

abbrev pub is_after : Option ℕ → ℕ → Bool
is_after none n = true
is_after (some start) n = leb start n

abbrev pub is_before : Option ℕ → ℕ → Bool
is_before none n = true
is_before (some end) n = leb n end

-- The WHERE clause that the range adds to `book_id=?`.
unfoldable pub is_selected : ℕ → Option ℕ → Option ℕ → ChapterRow → Bool
is_selected book start end row =
    row.book_id =? book && (is_after start row.chapter_index && is_before end row.chapter_index)

-- `ORDER BY chapter_index`
unfoldable pub insert_by_index : ChapterRow → List ChapterRow → List ChapterRow
insert_by_index c [] = c ∷ []
insert_by_index c (d ∷ ds) =
    let rest = insert_by_index c ds in
    if leb c.chapter_index d.chapter_index then c ∷ (d ∷ ds) else d ∷ rest

unfoldable pub select : (ChapterRow → Bool) → List ChapterRow → List ChapterRow
unfolding insert_by_index
select where_ [] = []
select where_ (c ∷ cs) =
    let rest = select where_ cs in if where_ c then insert_by_index c rest else rest

unfoldable pub all_chapters :
    ℕ → Option ℕ → Option ℕ → List ChapterRow → Result ChapterError (List ChapterRow)
unfolding validate_chapter_range select is_selected
all_chapters book start end rows = do
  validate_chapter_range start end
  ok (select (is_selected book start end) rows)

-- `pending_chapters` does not validate its range.
unfoldable pub pending_chapters : ℕ → Option ℕ → Option ℕ → List ChapterRow → List ChapterRow
unfolding select is_selected
pending_chapters book start end rows =
    select (λ row. is_selected book start end row && not (is_done row.status)) rows

-- What `progress` returns; a status that no chapter has is 0 here, and is left out of the dict.
pub record Progress : Type 0 where
  pub pending_count : ℕ
  pub done_count : ℕ
  pub failed_count : ℕ
  pub total : ℕ

abbrev pub is_pending : ChapterStatus → Bool
is_pending pending = true
is_pending _ = false

-- `COUNT(*)` of the rows with a status.
unfoldable pub count_where : (ChapterRow → Bool) → List ChapterRow → ℕ
count_where where_ [] = 0
count_where where_ (c ∷ cs) =
    let rest = count_where where_ cs in if where_ c then suc rest else rest

unfoldable pub count_status : ℕ → Option ℕ → Option ℕ → (ChapterStatus → Bool) → List ChapterRow → ℕ
unfolding count_where is_selected
count_status book start end is_status rows =
    count_where (λ row. is_selected book start end row && is_status row.status) rows

unfoldable pub progress : ℕ → Option ℕ → Option ℕ → List ChapterRow → Result ChapterError Progress
unfolding validate_chapter_range count_status
progress book start end rows = do
  validate_chapter_range start end
  let pending_count = count_status book start end is_pending rows
  let done_count = count_status book start end is_done rows
  let failed_count = count_status book start end is_failed rows
  ok (record {
    pending_count = pending_count;
    done_count = done_count;
    failed_count = failed_count;
    total = pending_count + (done_count + failed_count);
  })

count_where-insert :
    (where_ : ChapterRow → Bool) (c : ChapterRow) (cs : List ChapterRow)
    → count_where where_ (insert_by_index c cs) ≡ count_where where_ (c ∷ cs)
unfolding count_where insert_by_index
count_where-insert where_ c [] = refl
count_where-insert where_ c (d ∷ ds) = ground (arith, count_where-insert where_ c ds)

length-insert :
    (c : ChapterRow) (cs : List ChapterRow) → length (insert_by_index c cs) ≡ suc (length cs)
unfolding insert_by_index
length-insert c [] = refl
length-insert c (d ∷ ds) = ground (arith, length-insert c ds)

count_where-select :
    (where_ is_status : ChapterRow → Bool) (cs : List ChapterRow)
    → count_where (λ row. where_ row && is_status row) cs ≡ count_where is_status (select where_ cs)
unfolding select count_where
count_where-select where_ is_status [] = refl
count_where-select where_ is_status (c ∷ cs) = ground (
  arith,
  count_where-select where_ is_status cs,
  count_where-insert is_status c (select where_ cs),
)

count_where_sum :
    (cs : List ChapterRow)
    → count_where (λ row. is_pending row.status) cs
        + (count_where (λ row. is_done row.status) cs
            + count_where (λ row. is_failed row.status) cs)
      ≡ length cs
unfolding count_where
count_where_sum [] = refl
count_where_sum (c ∷ cs) = ground (arith, count_where_sum cs)

-- For any range `progress` and `all_chapters` agree: both raise the same error, or the counts are
-- those of the statuses in the list that `all_chapters` returns, and the total is its length.
pub progress_counts :
    (book : ℕ) (start end : Option ℕ) (rows : List ChapterRow)
    → progress book start end rows ≡ (
        all_chapters book start end rows >>= λ chapters. ok (record {
          pending_count = count_where (λ row. is_pending row.status) chapters;
          done_count = count_where (λ row. is_done row.status) chapters;
          failed_count = count_where (λ row. is_failed row.status) chapters;
          total = length chapters;
        }))
unfolding progress all_chapters count_status
progress_counts book start end rows =
    let chosen = is_selected book start end in
    let counts = λ (is_status : ChapterRow → Bool). count_where-select chosen is_status rows in
    rw
      (
        counts (λ row. is_pending row.status),
        counts (λ row. is_done row.status),
        counts (λ row. is_failed row.status),
        count_where_sum (select chosen rows),
      )
      (ground arith)
