-- ===== src/Batch/Passed.antt =====
-- The invariant of the loop of a run, and what each part of a step keeps of it.
use novel_crawler.Prelude.{
  ℕ, ◌≤◌, ◌<◌, Bool, true, false, ◌||◌, List, [], ◌∷◌, Option, none, some, ◌≡◌, refl, arith, any,
  ◌=?◌, Bool-cases, inl, inr, ok, err,
}
use novel_crawler.Task.Db.{Db}
use novel_crawler.Chapter.Rows.{ChapterRow, is_done}
use novel_crawler.Chapter.Table.{Unique}
use novel_crawler.Chapter.Done.{Store}
use novel_crawler.Chapter.Reading.{is_before}
use novel_crawler.Chapter.Open.{is_open_at, Closes}
use novel_crawler.Batch.Settings.{BatchError}
use novel_crawler.Batch.Loop.{Loop, Outcome, ◌then_do◌, min_index}
use novel_crawler.Batch.Runner.{is_past}
use novel_crawler.Batch.Order.{Each, Each-map, Ordered, has_index}

abbrev pub is_listed : ℕ → List ℕ → Bool
is_listed i retries = any (λ j. j =? i) retries

abbrev pub Below : ℕ → List ℕ → Type 0
Below n [] = Unit
Below n (i ∷ is) = (i < n) × Below n is

pub Below-le : (m n : ℕ) (is : List ℕ) → m ≤ n → Below m is → Below n is
Below-le m n [] le h = tt
Below-le m n (i ∷ is) le h = (omega arith, Below-le m n is le h.1)

min_index-le : (n : ℕ) (is : List ℕ) → Below n is → min_index n is ≤ n
unfolding min_index
min_index-le n [] h = omega arith
min_index-le n (i ∷ is) h = ground arith

min_index-le_listed : (n i : ℕ) (is : List ℕ) → is_listed i is ≡ true → min_index n is ≤ i
unfolding min_index
min_index-le_listed n i [] h = cc
min_index-le_listed n i (j ∷ js) h = ground (arith, min_index-le_listed j i js)

has_index-le :
    (n i : ℕ) (cs : List ChapterRow)
    → Each (λ c. n ≤ c.chapter_index) cs
    → has_index i cs ≡ true
    → n ≤ i
has_index-le n i [] h there = cc
has_index-le n i (c ∷ cs) h there = ground (arith, has_index-le n i cs h.1)

pub in_range : (end : Option ℕ) (i n : ℕ) → i < n → is_past n end ≡ false → is_before end i ≡ true
in_range none i n lt inside = refl
in_range (some end) i n lt inside = ground arith

module _ (book start : ℕ) (end : Option ℕ) where
  -- No chapter of the range below an index is open: there are none, or they are done.
  abbrev pub Passed : ℕ → List ChapterRow → Type 0
  Passed n rows = (i : ℕ) → start ≤ i → i < n → is_open_at book i rows ≡ false

  abbrev pub AllPassed : List ℕ → List ChapterRow → Type 0
  AllPassed [] rows = Unit
  AllPassed (n ∷ ns) rows = Passed n rows × AllPassed ns rows

  -- The open chapters of the range are in the list of retries, or still to come.
  pub record Inv (rest : List ChapterRow) (loop : Loop) : Type 0 where
    pub unique : Unique loop.store.chapters
    pub ordered : Ordered rest
    pub above : Each (λ c. loop.final_next ≤ c.chapter_index) rest
    pub within : Each (λ c. is_before end c.chapter_index ≡ true) rest
    pub settled :
        Each
          (λ c.
            is_done c.status ≡ true → is_open_at book c.chapter_index loop.store.chapters ≡ false)
          rest
    pub below : Below loop.final_next loop.retry_indices
    pub inside : is_past loop.final_next end ≡ false
    pub covered :
        (i : ℕ)
        → start ≤ i
        → is_before end i ≡ true
        → is_open_at book i loop.store.chapters ≡ true
        → (is_listed i loop.retry_indices || has_index i rest) ≡ true
    pub sound : AllPassed loop.saves loop.store.chapters

  -- What holds where a part of a run returns, and where it raises.
  pub data After (P : Loop → Type 0) : Outcome → Type 0 where
    returned : {loop : Loop} {u : Unit} → P loop → After P (loop, ok u)
    raised :
        {loop : Loop} {e : BatchError}
        → AllPassed loop.saves loop.store.chapters
        → After P (loop, err e)

  pub After-then_do :
      {P Q : Loop → Type 0} {out : Outcome} {next : Loop → Outcome}
      → After P out
      → ((loop : Loop) → P loop → After Q (next loop))
      → After Q (out then_do next)
  After-then_do (returned h) keeps = keeps _ h
  After-then_do (raised h) keeps = raised h

  Closes-stays :
      (i : ℕ) (rows rows' : List ChapterRow)
      → Closes rows rows'
      → is_open_at book i rows ≡ false
      → is_open_at book i rows' ≡ false
  Closes-stays i rows rows' closes h = let opens = closes.opens book i in ground arith

  pub AllPassed-Closes :
      (ns : List ℕ) (rows rows' : List ChapterRow)
      → Closes rows rows'
      → AllPassed ns rows
      → AllPassed ns rows'
  AllPassed-Closes [] rows rows' closes h = tt
  AllPassed-Closes (n ∷ ns) rows rows' closes h = (
    λ i le lt. Closes-stays i rows rows' closes (h.0 i le lt),
    AllPassed-Closes ns rows rows' closes h.1,
  )

  -- The store may close chapters at any time.
  pub Inv-Closes :
      (rest : List ChapterRow) (loop : Loop) (store : Store)
      → Closes loop.store.chapters store.chapters
      → Inv rest loop
      → Inv rest (record loop { store = store })
  Inv-Closes rest loop store closes inv = record {
    unique = closes.unique inv.unique;
    ordered = inv.ordered;
    above = inv.above;
    within = inv.within;
    settled =
        Each-map
          (λ c h finished.
            Closes-stays c.chapter_index loop.store.chapters store.chapters closes (h finished))
          rest inv.settled;
    below = inv.below;
    inside = inv.inside;
    covered = λ i le before opens. inv.covered i le before (closes.opens book i opens);
    sound = AllPassed-Closes loop.saves loop.store.chapters store.chapters closes inv.sound;
  }

  -- The index that a checkpoint holds is passed.
  pub Inv-Passed :
      (rest : List ChapterRow) (loop : Loop)
      → Inv rest loop
      → Passed (min_index loop.final_next loop.retry_indices) loop.store.chapters
  Inv-Passed rest loop inv i le lt = elim (Bool-cases (is_open_at book i loop.store.chapters)) [
    | inr closed ↦ closed
    | inl opens ↦
        let bound : min_index loop.final_next loop.retry_indices ≤ loop.final_next =
          min_index-le loop.final_next loop.retry_indices inv.below in
        let before : is_before end i ≡ true =
          in_range end i loop.final_next (omega arith) inv.inside in
        elim (Bool-cases (is_listed i loop.retry_indices)) [
          | inl listed ↦
              let le' : min_index loop.final_next loop.retry_indices ≤ i =
                min_index-le_listed loop.final_next i loop.retry_indices listed in
              absurd (omega arith)
          | inr other ↦
              let coming : has_index i rest ≡ true = rw other at (inv.covered i le before opens) in
              let le' : loop.final_next ≤ i =
                has_index-le loop.final_next i rest inv.above coming in
              absurd (omega arith)
        ]
  ]

  -- The other variables do not matter.
  pub Inv-kept :
      (rest : List ChapterRow) (loop : Loop) (db : Db) (pending_batch : ℕ) (version : Option ℕ)
      (succeeded failed : ℕ)
      → Inv rest loop
      → Inv rest (record loop {
        db = db;
        pending_batch = pending_batch;
        checkpoint_version = version;
        succeeded = succeeded;
        failed = failed;
      })
  Inv-kept rest loop db pending_batch version succeeded failed inv = record {
    unique = inv.unique;
    ordered = inv.ordered;
    above = inv.above;
    within = inv.within;
    settled = inv.settled;
    below = inv.below;
    inside = inv.inside;
    covered = inv.covered;
    sound = inv.sound;
  }
