-- ===== src/Chapter/Witness.antt =====
-- Tests of the chapter claims, and the instances of their theorems at concrete tables.
use novel_crawler.Prelude.{
  ℕ, ◌==◌, ◌=?◌, ◌&&◌, ◌⊎◌, true, false, List, [], ◌∷◌, none, some, ◌≡◌, refl, arith, ok, err,
}
use novel_crawler.Chapter.Rows.{
  ChapterRow, ClaimLease, pending, done, find_chapter, count_chapters, is_at, update_chapters,
  chapter_claim_conflict,
}
use novel_crawler.Chapter.Claims.{
  claim_chapter, is_claimable, claimed_row, lease_of, mark_failed, release_chapter_claim,
  validate_claim, is_claimed,
}
use novel_crawler.Chapter.Table.{Unique}
use novel_crawler.Chapter.Reading.{
  progress, progress_counts, all_chapters, validate_chapter_range, select, is_selected,
  insert_by_index, count_where,
}
use novel_crawler.Chapter.Done.{Library, Store, mark_done, read_file, has_duplicate, done_guards}
use novel_crawler.Chapter.Fencing.{claim_excludes, superseded_lease_fenced}
use novel_crawler.Chapter.Claimed.{MayClaim, claim_chapter_exact}
use novel_crawler.Chapter.Calls.{ChapterCall, perform_all}
use novel_crawler.Chapter.Open.{done_stays}
use novel_crawler.Chapter.Content.{mark_done_stores, done_is_final, IsDone}

abbrev first : ChapterRow
first = record {
  book_id = 1;
  chapter_index = 0;
  title = "One";
  status = pending;
  content_path = none;
  content_hash = none;
  error = none;
  claim_owner = none;
  claim_until = none;
  claim_token = none;
  claim_generation = 0;
  attempt_count = 0;
}

abbrev second : ChapterRow
second = record first { chapter_index = 1 }

abbrev rows : List ChapterRow
rows = first ∷ second ∷ []

abbrev library : Library
library = record { sha256 = λ s. s; is_blank = λ s. s == ""; path_of = λ b i. some "books/1/1.txt" }

abbrev store : Store
store = record { chapters = rows; files = [] }

abbrev finished : ChapterRow
finished = record first {
  status = done;
  content_path = some "books/1/1.txt";
  content_hash = some "text";
}

abbrev finished_store : Store
finished_store = record {
  chapters = finished ∷ second ∷ [];
  files = ("books/1/1.txt", "text") ∷ [];
}

rows-Unique : Unique rows
unfolding find_chapter is_at
rows-Unique = (refl, (refl, tt))

second_found : find_chapter 1 1 rows ≡ some second
unfolding find_chapter is_at
second_found = refl

first_found : find_chapter 1 0 rows ≡ some first
unfolding find_chapter is_at
first_found = refl

-- The second chapter behind a claim of "a" up to the tick 15.
abbrev second_claimed : ChapterRow
second_claimed = record second {
  claim_owner = some "a";
  claim_until = some 15;
  claim_token = some "t";
  claim_generation = 1;
  attempt_count = 1;
}

abbrev lease : ClaimLease
lease = record {
  book_id = 1;
  chapter_index = 1;
  owner = "a";
  generation = 1;
  expires_at = 15;
  token = "t";
}

claim_chapter_exact_example :
    (MayClaim "a" 10 second
      × ((rows' : List ChapterRow) × (claim_chapter 1 1 "a" 10 5 "t" rows ≡ ok (rows', some lease))
          × (find_chapter 1 1 rows' ≡ some second_claimed)
          × ((b i : ℕ)
              → (b =? 1 && i =? 1) ≡ false
              → find_chapter b i rows' ≡ find_chapter b i rows)))
    ⊎ (¬ MayClaim "a" 10 second × (claim_chapter 1 1 "a" 10 5 "t" rows ≡ ok (rows, none)))
claim_chapter_exact_example =
    claim_chapter_exact 1 1 "a" 10 5 "t" rows second rows-Unique second_found refl

abbrev rows1 : List ChapterRow
rows1 = first ∷ second_claimed ∷ []

first_claim : claim_chapter 1 1 "a" 10 5 "t" rows ≡ ok (rows1, some lease)
unfolding claim_chapter is_claimable claimed_row update_chapters count_chapters find_chapter is_at
    lease_of
first_claim = refl

claim_excludes_example : claim_chapter 1 1 "b" 14 5 "u" rows1 ≡ ok (rows1, none)
claim_excludes_example =
    claim_excludes 1 1 "a" 10 5 "t" rows rows1 lease rows-Unique first_claim "b" 14 5 "u" refl refl
      (omega arith)

-- The chapter claimed by "b" at the tick 15, where the claim of "a" has run out.
abbrev second_taken_over : ChapterRow
second_taken_over = record second {
  claim_owner = some "b";
  claim_until = some 20;
  claim_token = some "u";
  claim_generation = 2;
  attempt_count = 2;
}

abbrev rows2 : List ChapterRow
rows2 = first ∷ second_taken_over ∷ []

abbrev second_lease : ClaimLease
second_lease = record lease { owner = "b"; generation = 2; expires_at = 20; token = "u" }

second_claim : claim_chapter 1 1 "b" 15 5 "u" rows1 ≡ ok (rows2, some second_lease)
unfolding claim_chapter is_claimable claimed_row update_chapters count_chapters find_chapter is_at
    lease_of
second_claim = refl

superseded_lease_fenced_example :
    (mark_failed 1 1 "parse_failed" (some lease) 16 rows2 ≡ err chapter_claim_conflict)
    × (mark_done library 1 1 "Two" "text"
          (some lease)
          16
          false
          (record { chapters = rows2; files = [] })
        ≡ (record { chapters = rows2; files = [] }, err chapter_claim_conflict))
    × (release_chapter_claim 1 1 lease rows2 ≡ (rows2, err chapter_claim_conflict))
superseded_lease_fenced_example =
    superseded_lease_fenced 1 1 rows rows1 rows2 lease second_lease "a" "b" 10 5 15 5 "t" "u"
      library "parse_failed" "Two" "text" 16 false [] rows-Unique first_claim second_claim

guards_pass_first : done_guards library 1 0 "text" none 10 first ≡ ok tt
unfolding done_guards validate_claim is_claimed
guards_pass_first = refl

fresh_text : has_duplicate 1 0 "text" rows ≡ false
unfolding has_duplicate
fresh_text = refl

mark_done_stores_example :
    let out = mark_done library 1 0 "One" "text" none 10 true store in
    (out.1 ≡ ok "books/1/1.txt")
    × ((row : ChapterRow) × IsDone library 1 0 "text" "books/1/1.txt" out.0 row)
    × Unique out.0.chapters
mark_done_stores_example =
    mark_done_stores library 1 0 "One" "text" "books/1/1.txt" none 10 true store rows-Unique first
      first_found refl refl guards_pass_first fresh_text refl refl

finished_found : find_chapter 1 0 finished_store.chapters ≡ some finished
unfolding find_chapter is_at
finished_found = refl

finished_text : read_file "books/1/1.txt" finished_store.files ≡ some "text"
unfolding read_file
finished_text = refl

finished-Unique : Unique finished_store.chapters
unfolding find_chapter is_at
finished-Unique = (refl, (refl, tt))

abbrev finished_IsDone : IsDone library 1 0 "text" "books/1/1.txt" finished_store finished
finished_IsDone = record {
  found = finished_found;
  status = refl;
  hash = refl;
  place = refl;
  named = refl;
  text = finished_text;
  unclaimed = refl;
}

-- Another worker claims the chapter, marks it with another text, and fails it.
abbrev later_calls : List ChapterCall
later_calls =
    ChapterCall.claim_chapter 1 0 "b" 20 5 "u"
    ∷ ChapterCall.mark_done 1 0 "One" "other" none 21 false
    ∷ ChapterCall.mark_failed 1 0 "parse_failed" none 22
    ∷ ChapterCall.reset_failed 1
    ∷ []

done_stays_example :
    find_chapter 1 0 (perform_all library later_calls finished_store).chapters ≡ some finished
done_stays_example = done_stays library later_calls finished_store 1 0 finished finished_found refl

done_is_final_example :
    (claim_chapter 1 0 "b" 20 5 "u" finished_store.chapters ≡ ok (finished_store.chapters, none))
    × (mark_failed 1 0 "parse_failed" none 20 finished_store.chapters ≡ ok finished_store.chapters)
done_is_final_example =
    done_is_final library 1 0 "text" "books/1/1.txt" 20 finished_store finished finished_IsDone "b"
      5 "u" "parse_failed" finished-Unique refl

progress_counts_example :
    progress 1 (some 1) none rows
    ≡ ok (record { pending_count = 1; done_count = 0; failed_count = 0; total = 1 })
unfolding all_chapters validate_chapter_range select is_selected insert_by_index count_where
progress_counts_example = progress_counts 1 (some 1) none rows
