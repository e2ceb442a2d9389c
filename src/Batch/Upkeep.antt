-- ===== src/Batch/Upkeep.antt =====
-- What the changes of the variables of a run keep of its invariant.
use novel_crawler.Prelude.{
  ℕ, suc, ◌≤◌, Bool, true, false, ◌||◌, List, ◌∷◌, Option, none, some, ◌≡◌, refl, arith, ◌=?◌,
  =?→eq, Bool-cases, inl, inr,
}
use novel_crawler.Task.Python.{Python}
use novel_crawler.Task.Checks.{Limits}
use novel_crawler.Chapter.Rows.{ChapterRow}
use novel_crawler.Chapter.Done.{Library, Store}
use novel_crawler.Chapter.Reading.{is_before}
use novel_crawler.Chapter.Open.{is_open_at, Closes}
use novel_crawler.Batch.Settings.{Settings, Processed}
use novel_crawler.Batch.Payload.{Numbers}
use novel_crawler.Batch.Loop.{Loop, Outcome, max, Context}
use novel_crawler.Batch.Runner.{is_past, retry, tick}
use novel_crawler.Batch.Order.{Each-map, has_index}
use novel_crawler.Batch.Passed.{is_listed, Below-le, Inv, After, Inv-kept, Inv-Closes}

inside_max :
    (end : Option ℕ) (n i : ℕ)
    → is_past n end ≡ false
    → is_before end i ≡ true
    → is_past (max n (suc i)) end ≡ false
inside_max none n i p q = refl
inside_max (some end) n i p q = ground arith

same_open :
    (book i j : ℕ) (rows : List ChapterRow)
    → i ≡ j
    → is_open_at book i rows ≡ false
    → is_open_at book j rows ≡ true
    → ⊥
same_open book i j rows same closed opens = cc

module _ (py : Python) (limits : Limits) (lib : Library) (numbers : Numbers)
    (processor : ChapterRow → Processed) (settings : Settings) (context : Context) (start : ℕ) where
  abbrev pub Keeps : List ChapterRow → Loop → Type 0
  Keeps rest loop = Inv context.book_id start settings.chapter_end rest loop

  abbrev Ends : List ChapterRow → Outcome → Type 0
  Ends rest out = After context.book_id start settings.chapter_end (Keeps rest) out

  abbrev pub retried : ℕ → Loop → Loop
  retried i loop = retry py limits lib numbers processor settings context i loop

  abbrev pub ticked : Loop → Loop
  ticked loop = tick py limits lib numbers processor settings context loop

  -- The chapter that a step begins with counts as one to retry.
  pub advance :
      (c : ChapterRow) (cs : List ChapterRow) (loop : Loop)
      → Keeps (c ∷ cs) loop
      → Keeps cs (
          retried c.chapter_index
            (record loop { final_next = max loop.final_next (suc c.chapter_index) }))
  advance c cs loop inv = record {
    unique = inv.unique;
    ordered = inv.ordered.1;
    above =
        let first : loop.final_next ≤ c.chapter_index = inv.above.0 in
        Each-map (λ d lt. ground arith) cs inv.ordered.0;
    within = inv.within.1;
    settled = inv.settled.1;
    below =
        let first : loop.final_next ≤ c.chapter_index = inv.above.0 in
        (
          ground arith,
          Below-le loop.final_next (max loop.final_next (suc c.chapter_index)) loop.retry_indices
              (ground arith) inv.below,
        );
    inside =
        inside_max settings.chapter_end loop.final_next c.chapter_index inv.inside inv.within.0;
    covered = λ i le before opens. let listed = inv.covered i le before opens in ground arith;
    sound = inv.sound;
  }

  covered_else :
      (i j : ℕ) (rows : List ChapterRow) (listed coming : Bool)
      → is_open_at context.book_id i rows ≡ false
      → is_open_at context.book_id j rows ≡ true
      → ((i =? j || listed) || coming) ≡ true
      → (listed || coming) ≡ true
  covered_else i j rows listed coming closed opens h = elim (Bool-cases (i =? j)) [
    | inl same ↦ absurd (same_open context.book_id i j rows (=?→eq i j same) closed opens)
    | inr other ↦ rw other at h
  ]

  pub unretry :
      (i : ℕ) (cs : List ChapterRow) (loop : Loop)
      → Keeps cs (retried i loop)
      → is_open_at context.book_id i loop.store.chapters ≡ false
      → Keeps cs loop
  unretry i cs loop inv closed = record {
    unique = inv.unique;
    ordered = inv.ordered;
    above = inv.above;
    within = inv.within;
    settled = inv.settled;
    below = inv.below.1;
    inside = inv.inside;
    covered = λ j le before opens.
        let listed = inv.covered j le before opens in
        covered_else i j loop.store.chapters (is_listed j loop.retry_indices) (has_index j cs)
          closed opens listed;
    sound = inv.sound;
  }

  pub tick-Keeps : (cs : List ChapterRow) (loop : Loop) → Keeps cs loop → Keeps cs (ticked loop)
  tick-Keeps cs loop inv =
      Inv-kept context.book_id start settings.chapter_end cs loop loop.db (suc loop.pending_batch)
        loop.checkpoint_version loop.succeeded loop.failed inv

  pub store-Keeps :
      (cs : List ChapterRow) (loop : Loop) (store : Store)
      → Closes loop.store.chapters store.chapters
      → Keeps cs loop
      → Keeps cs (record loop { store = store })
  store-Keeps cs loop store closes inv =
      Inv-Closes context.book_id start settings.chapter_end cs loop store closes inv
