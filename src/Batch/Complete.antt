-- ===== src/Batch/Complete.antt =====
-- The invariant of the loop, from the start of a run to its end.
use novel_crawler.Prelude.{
  ℕ, ◌≤◌, true, false, ◌&&◌, ◌||◌, List, [], Option, none, some, ◌≡◌, arith, ltb, Bool-cases,
  Option-cases, Result-cases, inl, inr, ok, err≢ok, ok_inj,
}
use novel_crawler.Task.Python.{Python}
use novel_crawler.Task.Checks.{Limits}
use novel_crawler.Task.Db.{Db}
use novel_crawler.Chapter.Rows.{ChapterRow, is_done, find_chapter}
use novel_crawler.Chapter.Table.{Unique}
use novel_crawler.Chapter.Done.{Library, Store}
use novel_crawler.Chapter.Reading.{
  validate_chapter_range, all_chapters, select, is_selected, is_before, is_after,
}
use novel_crawler.Chapter.Open.{is_open_at}
use novel_crawler.Batch.Settings.{Settings, Processed, Moment}
use novel_crawler.Batch.Payload.{Numbers}
use novel_crawler.Batch.Loop.{Loop, Context}
use novel_crawler.Batch.Runner.{
  Prior, is_past, is_finished, chapters_from, start_loop, run_chapters, final_save,
}
use novel_crawler.Batch.Order.{
  Each-map, has_index, select-Ordered, select-chosen, select-found, select-has_index,
}
use novel_crawler.Batch.Passed.{Passed, Inv, After, raised, After-then_do}
use novel_crawler.Batch.Steps.{iterate-Ends, final_save-Ends}

past_end :
    (end : Option ℕ) (n i : ℕ) → is_finished n end ≡ true → n ≤ i → is_before end i ≡ true → ⊥
past_end none n i finished le before = cc
past_end (some end) n i finished le before = ground arith

chosen_above :
    (book n : ℕ) (end : Option ℕ) (c : ChapterRow)
    → is_selected book (some n) end c ≡ true
    → n ≤ c.chapter_index
unfolding is_selected
chosen_above book n end c h = ground arith

chosen_within :
    (book n : ℕ) (end : Option ℕ) (c : ChapterRow)
    → is_selected book (some n) end c ≡ true
    → is_before end c.chapter_index ≡ true
unfolding is_selected
chosen_within book n end c h = ground arith

found_settled :
    (book : ℕ) (c : ChapterRow) (rows : List ChapterRow)
    → find_chapter book c.chapter_index rows ≡ some c
    → is_done c.status ≡ true
    → is_open_at book c.chapter_index rows ≡ false
found_settled book c rows found finished = rw found (rw finished)

open_selected :
    (book i : ℕ) (start end : Option ℕ) (rows : List ChapterRow)
    → is_open_at book i rows ≡ true
    → (is_after start i && is_before end i) ≡ true
    → has_index i (select (is_selected book start end) rows) ≡ true
open_selected book i start end rows opens h = elim (Option-cases (find_chapter book i rows)) [
  | inl missing ↦ let bad : false ≡ true = rw missing at opens in cc
  | inr (c, found) ↦ select-has_index book start end i rows c found h
]

all_chapters_ok :
    (book n : ℕ) (end : Option ℕ) (rows chapters : List ChapterRow)
    → all_chapters book (some n) end rows ≡ ok chapters
    → select (is_selected book (some n) end) rows ≡ chapters
unfolding all_chapters
all_chapters_ok book n end rows chapters h =
    elim (Result-cases (validate_chapter_range (some n) end)) [
      | inl (u, valid) ↦ ok_inj (rw valid at h)
      | inr (e, invalid) ↦ absurd (err≢ok (rw invalid at h))
    ]

module _ (py : Python) (limits : Limits) (lib : Library) (numbers : Numbers)
    (processor : ChapterRow → Processed) (settings : Settings) (context : Context) (start : ℕ) where
  abbrev begun : Prior → Db → Store → Loop
  begun prior db store = start_loop py limits lib numbers processor settings context prior db store

  module _ (prior : Prior) (db : Db) (store : Store) (q : Unique store.chapters)
      (inside : is_past prior.next_index settings.chapter_end ≡ false)
      (passed : Passed context.book_id start settings.chapter_end prior.next_index
        store.chapters) where
    start_covered :
        (rest : List ChapterRow)
        → ((i : ℕ)
            → prior.next_index ≤ i
            → is_before settings.chapter_end i ≡ true
            → is_open_at context.book_id i store.chapters ≡ true
            → has_index i rest ≡ true)
        → (i : ℕ) → start ≤ i
        → is_before settings.chapter_end i ≡ true
        → is_open_at context.book_id i store.chapters ≡ true
        → (false || has_index i rest) ≡ true
    start_covered rest coming i le before opens = elim (Bool-cases (ltb i prior.next_index)) [
      | inl earlier ↦
          let closed : is_open_at context.book_id i store.chapters ≡ false =
            passed i le (ground arith) in
          cc
      | inr later ↦ coming i (ground arith) before opens
    ]

    empty-Inv :
        is_finished prior.next_index settings.chapter_end ≡ true
        → Inv context.book_id start settings.chapter_end [] (begun prior db store)
    empty-Inv finished = record {
      unique = q;
      ordered = tt;
      above = tt;
      within = tt;
      settled = tt;
      below = tt;
      inside = inside;
      covered = start_covered [] (λ i le before opens.
          absurd (past_end settings.chapter_end prior.next_index i finished le before));
      sound = tt;
    }

    selected-Inv :
        Inv context.book_id start settings.chapter_end
          (select
            (is_selected context.book_id (some prior.next_index) settings.chapter_end)
            store.chapters)
          (begun prior db store)
    selected-Inv =
        let chosen =
          select-chosen context.book_id (some prior.next_index) settings.chapter_end
            store.chapters in
        record {
          unique = q;
          ordered =
              select-Ordered context.book_id (some prior.next_index) settings.chapter_end
                store.chapters q;
          above =
              Each-map
                (λ c h. chosen_above context.book_id prior.next_index settings.chapter_end c h) _
                chosen;
          within =
              Each-map
                (λ c h. chosen_within context.book_id prior.next_index settings.chapter_end c h) _
                chosen;
          settled =
              Each-map (λ c h. found_settled context.book_id c store.chapters h) _
                (select-found context.book_id (some prior.next_index) settings.chapter_end
                  store.chapters q);
          below = tt;
          inside = inside;
          covered = start_covered _ (λ i le before opens.
              open_selected context.book_id i (some prior.next_index) settings.chapter_end
                store.chapters opens (ground arith));
          sound = tt;
        }

    begun-Inv :
        (chapters : List ChapterRow)
        → chapters_from py limits lib numbers processor settings context prior.next_index
            store.chapters
          ≡ ok chapters
        → Inv context.book_id start settings.chapter_end chapters (begun prior db store)
    unfolding chapters_from
    begun-Inv chapters h = elim (Bool-cases (is_finished prior.next_index settings.chapter_end)) [
      | inl finished ↦
          let none_left : [] ≡ chapters = ok_inj (rw finished at h) in
          rw (← none_left) (empty-Inv finished)
      | inr more ↦
          let all =
            all_chapters_ok context.book_id prior.next_index settings.chapter_end store.chapters
              chapters (rw more at h) in
          rw (← all) selected-Inv
    ]

    pub run-After :
        (moments : ℕ → Moment) (last : Moment)
        → After context.book_id start settings.chapter_end
            (Inv context.book_id start settings.chapter_end [])
            (run_chapters py limits lib numbers processor settings context moments last
              (begun prior db store)
              (chapters_from py limits lib numbers processor settings context prior.next_index
                store.chapters))
    unfolding run_chapters
    run-After moments last =
        elim (Result-cases (
          chapters_from py limits lib numbers processor settings context prior.next_index
            store.chapters)) [
              | inr (e, fails) ↦ rw fails (raised tt)
              | inl (chapters, found) ↦ rw found (
                  After-then_do context.book_id start settings.chapter_end
                    {next = final_save py limits lib numbers processor settings context last}
                    (iterate-Ends py limits lib numbers processor settings context start moments
                      chapters (begun prior db store) (begun-Inv chapters found))
                    (final_save-Ends py limits lib numbers processor settings context start last))
            ]
