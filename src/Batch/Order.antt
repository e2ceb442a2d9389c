-- ===== src/Batch/Order.antt =====
-- The chapters that a run goes through: in the order of their indexes, each the row under its key.
use novel_crawler.Prelude.{
  ℕ, ◌<◌, Bool, true, false, ◌&&◌, ◌||◌, List, [], ◌∷◌, Option, none, some, ◌≡◌, refl, arith, any,
  leb, ◌=?◌, =?→eq, Bool-cases, inl, inr,
}
use novel_crawler.Chapter.Rows.{ChapterRow, is_at, find_chapter}
use novel_crawler.Chapter.Table.{Unique}
use novel_crawler.Chapter.Reading.{select, insert_by_index, is_selected, is_after, is_before}

-- A statement about each row of a list.
abbrev pub Each : (ChapterRow → Type 0) → List ChapterRow → Type 0
Each P [] = Unit
Each P (c ∷ cs) = P c × Each P cs

pub Each-map :
    {P Q : ChapterRow → Type 0}
    → ((c : ChapterRow) → P c → Q c)
    → (cs : List ChapterRow) → Each P cs
    → Each Q cs
Each-map f [] h = tt
Each-map f (c ∷ cs) h = (f c h.0, Each-map f cs h.1)

-- Rising indexes.
abbrev pub Ordered : List ChapterRow → Type 0
Ordered [] = Unit
Ordered (c ∷ cs) = Each (λ d. c.chapter_index < d.chapter_index) cs × Ordered cs

abbrev pub has_index : ℕ → List ChapterRow → Bool
has_index i cs = any (λ c. c.chapter_index =? i) cs

pub has_index-Each :
    (P : ChapterRow → Type 0) (i : ℕ) (cs : List ChapterRow)
    → Each P cs
    → has_index i cs ≡ true
    → (c : ChapterRow) × P c × (c.chapter_index ≡ i)
has_index-Each P i [] h there = cc
has_index-Each P i (c ∷ cs) h there = elim (Bool-cases (c.chapter_index =? i)) [
  | inl here ↦ (c, h.0, =?→eq c.chapter_index i here)
  | inr other ↦ has_index-Each P i cs h.1 (rw other at there)
]

insert-Each :
    (P : ChapterRow → Type 0) (c : ChapterRow) (cs : List ChapterRow)
    → P c
    → Each P cs
    → Each P (insert_by_index c cs)
unfolding insert_by_index
insert-Each P c [] p h = (p, tt)
insert-Each P c (d ∷ ds) p h = elim (Bool-cases (leb c.chapter_index d.chapter_index)) [
  | inl le ↦ rw le (p, h)
  | inr gt ↦ rw gt (h.0, insert-Each P c ds p h.1)
]

insert-Ordered :
    (c : ChapterRow) (cs : List ChapterRow)
    → has_index c.chapter_index cs ≡ false
    → Ordered cs
    → Ordered (insert_by_index c cs)
unfolding insert_by_index
insert-Ordered c [] new o = (tt, tt)
insert-Ordered c (d ∷ ds) new o = elim (Bool-cases (leb c.chapter_index d.chapter_index)) [
  | inl le ↦
      let lt : c.chapter_index < d.chapter_index = ground arith in
      rw le ((lt, Each-map (λ e h. omega arith) ds o.0), o)
  | inr gt ↦ rw gt (
    insert-Each (λ e. d.chapter_index < e.chapter_index) c ds (ground arith) o.0,
    insert-Ordered c ds (ground arith) o.1,
  )
]

has_index-insert :
    (i : ℕ) (c : ChapterRow) (cs : List ChapterRow)
    → has_index i (insert_by_index c cs) ≡ (c.chapter_index =? i || has_index i cs)
unfolding insert_by_index
has_index-insert i c [] = refl
has_index-insert i c (d ∷ ds) = ground (arith, has_index-insert i c ds)

module _ (book : ℕ) (start end : Option ℕ) where
  abbrev chosen : ChapterRow → Bool
  chosen = is_selected book start end

  has_index-select :
      (i : ℕ) (cs : List ChapterRow)
      → has_index i (select chosen cs) ≡ true
      → find_chapter book i cs ≡ none
      → ⊥
  unfolding select is_selected find_chapter is_at
  has_index-select i [] h missing = cc
  has_index-select i (c ∷ cs) h missing =
      ground (arith, has_index-select i cs, has_index-insert i c (select chosen cs))

  fresh :
      (c : ChapterRow) (cs : List ChapterRow)
      → find_chapter c.book_id c.chapter_index cs ≡ none
      → chosen c ≡ true
      → has_index c.chapter_index (select chosen cs) ≡ false
  unfolding is_selected
  fresh c cs missing in_ = elim (Bool-cases (has_index c.chapter_index (select chosen cs))) [
    | inr new ↦ new
    | inl there ↦
        let same : c.book_id ≡ book = ground arith in
        absurd (has_index-select c.chapter_index cs there (rw same at missing))
  ]

  pub select-Ordered : (cs : List ChapterRow) → Unique cs → Ordered (select chosen cs)
  unfolding select
  select-Ordered [] q = tt
  select-Ordered (c ∷ cs) q = elim (Bool-cases (chosen c)) [
    | inr out ↦ rw out (select-Ordered cs q.1)
    | inl in_ ↦
        rw in_ (insert-Ordered c (select chosen cs) (fresh c cs q.0 in_) (select-Ordered cs q.1))
  ]

  pub select-chosen : (cs : List ChapterRow) → Each (λ c. chosen c ≡ true) (select chosen cs)
  unfolding select
  select-chosen [] = tt
  select-chosen (c ∷ cs) = elim (Bool-cases (chosen c)) [
    | inr out ↦ rw out (select-chosen cs)
    | inl in_ ↦
        rw in_ (insert-Each (λ d. chosen d ≡ true) c (select chosen cs) in_ (select-chosen cs))
  ]

  clash :
      (b i j : ℕ) (cs : List ChapterRow) (d : ChapterRow)
      → b ≡ book
      → i ≡ j
      → find_chapter b i cs ≡ none
      → find_chapter book j cs ≡ some d
      → ⊥
  clash b i j cs d p q missing found = cc

  found_below :
      (c d : ChapterRow) (cs : List ChapterRow)
      → find_chapter c.book_id c.chapter_index cs ≡ none
      → find_chapter book d.chapter_index cs ≡ some d
      → find_chapter book d.chapter_index (c ∷ cs) ≡ some d
  unfolding find_chapter is_at
  found_below c d cs missing found = elim (Bool-cases (is_at book d.chapter_index c)) [
    | inr other ↦ rw other found
    | inl here ↦ absurd (
        clash c.book_id c.chapter_index d.chapter_index cs d (ground arith) (ground arith) missing
          found)
  ]

  found_first :
      (c : ChapterRow) (cs : List ChapterRow)
      → chosen c ≡ true
      → find_chapter book c.chapter_index (c ∷ cs) ≡ some c
  unfolding find_chapter is_at is_selected
  found_first c cs in_ = ground arith

  -- Each chapter that a SELECT returns is the row under its key.
  pub select-found :
      (cs : List ChapterRow)
      → Unique cs
      → Each (λ c. find_chapter book c.chapter_index cs ≡ some c) (select chosen cs)
  unfolding select
  select-found [] q = tt
  select-found (c ∷ cs) q =
      let rest =
        Each-map (λ d found. found_below c d cs q.0 found) (select chosen cs)
          (select-found cs q.1) in
      elim (Bool-cases (chosen c)) [
        | inr out ↦ rw out rest
        | inl in_ ↦ rw in_ (
            insert-Each (λ d. find_chapter book d.chapter_index (c ∷ cs) ≡ some d) c
              (select chosen cs) (found_first c cs in_) rest)
      ]

  -- Every chapter of the range is returned.
  pub select-has_index :
      (i : ℕ) (cs : List ChapterRow) (c : ChapterRow)
      → find_chapter book i cs ≡ some c
      → (is_after start i && is_before end i) ≡ true
      → has_index i (select chosen cs) ≡ true
  unfolding select is_selected find_chapter is_at
  select-has_index i [] c found h = cc
  select-has_index i (d ∷ cs) c found h =
      ground (arith, select-has_index i cs c, has_index-insert i d (select chosen cs))
