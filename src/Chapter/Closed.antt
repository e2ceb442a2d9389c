-- ===== src/Chapter/Closed.antt =====
-- A `mark_done` that returned has closed its chapter.
use novel_crawler.Prelude.{
  ℕ, String, Bool, true, false, ◌&&◌, List, Option, some, ◌≡◌, refl, sym, ◌∙◌, Result, ok, err,
  ◌=?◌, Bool-cases, Option-cases, inl, inr, err≢ok,
}
use novel_crawler.Chapter.Rows.{
  ChapterRow, ClaimLease, ChapterError, is_done, is_at, find_chapter, count_chapters,
}
use novel_crawler.Chapter.Claims.{fence}
use novel_crawler.Chapter.Done.{
  Library, Store, done_row, has_duplicate, replace_file, has_file, commit_done, done_guards,
  done_again, done_first, done_checked, done_found,
}
use novel_crawler.Chapter.Done
use novel_crawler.Chapter.Table.{Unique, count_exact, find-update_met}
use novel_crawler.Chapter.Open.{is_open_at, again_keeps}

-- A `mark_done` that returned closes its chapter.
module _ (lib : Library) (b i : ℕ) (title content : String) (claim : Option ClaimLease) (now : ℕ)
    (reject : Bool) (store : Store) (q : Unique store.chapters) (row : ChapterRow)
    (found : find_chapter b i store.chapters ≡ some row) (p : String) where
  commit_closed :
      (path digest : String) (files : List (String × String))
      → (commit_done lib b i title path digest claim now (record store { files = files })).1 ≡ ok p
      → is_open_at b i
          (commit_done lib b i title path digest claim now
            (record store { files = files })).0.chapters
        ≡ false
  unfolding commit_done
  commit_closed path digest files h =
      elim (Bool-cases (count_chapters b i (fence claim now) store.chapters =? 1)) [
        | inr other ↦ absurd (err≢ok (rw other at h))
        | inl one ↦
            let met : fence claim now row ≡ true =
              rw found at (sym (count_exact b i (fence claim now) store.chapters q) ∙ one) in
            rw
              (
                one,
                find-update_met b i (fence claim now) (done_row title path digest) store.chapters
                    row (λ d. unfold done_row is_at in refl) found met,
              )
              (unfold done_row in refl)
      ]

  first_closed :
      (done_first lib b i title content claim now reject store).1 ≡ ok p
      → is_open_at b i (done_first lib b i title content claim now reject store).0.chapters ≡ false
  unfolding done_first
  first_closed h =
      elim (Bool-cases (reject && has_duplicate b i (lib.sha256 content) store.chapters)) [
        | inl duplicate ↦ absurd (err≢ok (rw duplicate at h))
        | inr fresh ↦ elim (Option-cases (lib.path_of b i)) [
          | inl nowhere ↦ absurd (err≢ok (rw (fresh, nowhere) at h))
          | inr (path, place) ↦
              rw (fresh, place)
                (commit_closed path (lib.sha256 content) (replace_file path content store.files)
                  (rw (fresh, place) at h))
        ]
      ]

  checked_closed :
      (checked : Result ChapterError Unit)
      → (done_checked lib b i title content claim now reject store row checked).1 ≡ ok p
      → is_open_at b i
          (done_checked lib b i title content claim now reject store row checked).0.chapters
        ≡ false
  unfolding done_checked
  checked_closed (err e) h = absurd (err≢ok h)
  checked_closed (ok u) h = elim (Bool-cases (is_done row.status)) [
    | inl finished ↦
        rw (finished, again_keeps lib (lib.sha256 content) row store, found) (rw finished)
    | inr open_ ↦ rw open_ (first_closed (rw open_ at h))
  ]

pub mark_done_closed :
    (lib : Library) (b i : ℕ) (title content : String) (claim : Option ClaimLease) (now : ℕ)
    (reject : Bool) (store : Store) (p : String)
    → Unique store.chapters
    → (Done.mark_done lib b i title content claim now reject store).1 ≡ ok p
    → is_open_at b i (Done.mark_done lib b i title content claim now reject store).0.chapters
      ≡ false
unfolding Done.mark_done
mark_done_closed lib b i title content claim now reject store p q h =
    elim (Option-cases (find_chapter b i store.chapters)) [
      | inl missing ↦ absurd (err≢ok (rw missing at h))
      | inr (row, found) ↦ rw found (
          checked_closed lib b i title content claim now reject store q row found p
            (done_guards lib b i content claim now row) (rw found at h))
    ]
