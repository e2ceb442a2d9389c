-- ===== src/Chapter/Calls.antt =====
-- The calls by which workers change chapters, as data: what other processes do between two steps.
use novel_crawler.Prelude.{ℕ, String, Bool, List, [], ◌∷◌, Option, Result, ok, err}
use novel_crawler.Chapter.Rows.{ChapterRow, ClaimLease, ChapterError}
use novel_crawler.Chapter.Claims
use novel_crawler.Chapter.Done
use novel_crawler.Chapter.Done.{Library, Store}

pub data ChapterCall : Type 0 where
  claim_chapter : ℕ → ℕ → String → ℕ → ℕ → String → ChapterCall
  release_chapter_claim : ℕ → ℕ → ClaimLease → ChapterCall
  mark_failed : ℕ → ℕ → String → Option ClaimLease → ℕ → ChapterCall
  reset_failed : ℕ → ChapterCall
  mark_done : ℕ → ℕ → String → String → Option ClaimLease → ℕ → Bool → ChapterCall

-- The table that a call leaves: as it was, where it raised.
abbrev pub claimed_or :
    List ChapterRow → Result ChapterError (List ChapterRow × Option ClaimLease) → List ChapterRow
claimed_or rows (ok (rows', lease)) = rows'
claimed_or rows (err e) = rows

abbrev pub failed_or : List ChapterRow → Result ChapterError (List ChapterRow) → List ChapterRow
failed_or rows (ok rows') = rows'
failed_or rows (err e) = rows

module _ (lib : Library) where
  unfoldable pub perform : ChapterCall → Store → Store
  perform (claim_chapter book index owner now seconds token) store = record store {
    chapters =
        claimed_or store.chapters
          (Claims.claim_chapter book index owner now seconds token store.chapters);
  }
  perform (release_chapter_claim book index claim) store = record store {
    chapters = (Claims.release_chapter_claim book index claim store.chapters).0;
  }
  perform (mark_failed book index error claim now) store = record store {
    chapters =
        failed_or store.chapters (Claims.mark_failed book index error claim now store.chapters);
  }
  perform (reset_failed book) store = record store {
    chapters = Claims.reset_failed book store.chapters;
  }
  perform (mark_done book index title content claim now reject) store =
      (Done.mark_done lib book index title content claim now reject store).0

  unfoldable pub perform_all : List ChapterCall → Store → Store
  unfolding perform
  perform_all [] store = store
  perform_all (c ∷ cs) store = perform_all cs (perform c store)
