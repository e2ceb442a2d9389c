-- ===== src/Chapter/Table.antt =====
-- Laws of the UPDATE statement on the chapters table.
use novel_crawler.Prelude.{
  ℕ, Bool, true, false, ◌&&◌, List, [], ◌∷◌, Option, none, some, ◌≡◌, refl, arith, ◌=?◌,
}
use novel_crawler.Chapter.Rows.{ChapterRow, is_at, find_chapter, update_chapters, count_chapters}

-- `uq_chapters_book_index`
abbrev pub Unique : List ChapterRow → Type 0
Unique [] = Unit
Unique (c ∷ cs) = (find_chapter c.book_id c.chapter_index cs ≡ none) × Unique cs

abbrev pub meets : (ChapterRow → Bool) → Option ChapterRow → Bool
meets where_ none = false
meets where_ (some c) = where_ c

pub find_chapter-is_at :
    (b i : ℕ) (cs : List ChapterRow) (c : ChapterRow)
    → find_chapter b i cs ≡ some c
    → is_at b i c ≡ true
unfolding find_chapter
find_chapter-is_at b i [] c h = cc
find_chapter-is_at b i (d ∷ cs) c h = ground (arith, find_chapter-is_at b i cs c)

module _ (b i : ℕ) (where_ : ChapterRow → Bool) where
  count_absent :
      (cs : List ChapterRow) → find_chapter b i cs ≡ none → count_chapters b i where_ cs ≡ 0
  unfolding find_chapter count_chapters
  count_absent [] h = refl
  count_absent (c ∷ cs) h = ground (arith, count_absent cs)

  -- One row is updated if the row under the key meets the condition, and none otherwise.
  pub count_exact :
      (cs : List ChapterRow)
      → Unique cs
      → (count_chapters b i where_ cs =? 1) ≡ meets where_ (find_chapter b i cs)
  unfolding find_chapter count_chapters is_at
  count_exact [] q = refl
  count_exact (c ∷ cs) q = ground (arith, count_exact cs q.1, count_absent cs)

  module _ (f : ChapterRow → ChapterRow) where
    pub find-update_met :
        (cs : List ChapterRow) (c : ChapterRow)
        → ((d : ChapterRow) → is_at b i (f d) ≡ is_at b i d)
        → find_chapter b i cs ≡ some c
        → where_ c ≡ true
        → find_chapter b i (update_chapters b i where_ f cs) ≡ some (f c)
    unfolding find_chapter update_chapters
    find-update_met [] c keeps h m = cc
    find-update_met (d ∷ cs) c keeps h m = ground (arith, keeps d, find-update_met cs c keeps)

    pub find-update_unmet :
        (cs : List ChapterRow) (c : ChapterRow)
        → find_chapter b i cs ≡ some c
        → where_ c ≡ false
        → find_chapter b i (update_chapters b i where_ f cs) ≡ some c
    unfolding find_chapter update_chapters
    find-update_unmet [] c h m = cc
    find-update_unmet (d ∷ cs) c h m = ground (arith, find-update_unmet cs c)

  pub find-update_ne :
      (f : ChapterRow → ChapterRow) (b' i' : ℕ) (cs : List ChapterRow)
      → ((d : ChapterRow) → ((f d).book_id ≡ d.book_id) × ((f d).chapter_index ≡ d.chapter_index))
      → (b' =? b && i' =? i) ≡ false
      → find_chapter b' i' (update_chapters b i where_ f cs) ≡ find_chapter b' i' cs
  unfolding find_chapter update_chapters is_at
  find-update_ne f b' i' [] keeps h = refl
  find-update_ne f b' i' (d ∷ cs) keeps h =
      ground (arith, keeps d, find-update_ne f b' i' cs keeps h)

pub find_absent-update :
    (b i b' i' : ℕ) (where_ : ChapterRow → Bool) (f : ChapterRow → ChapterRow)
    (cs : List ChapterRow)
    → ((d : ChapterRow) → ((f d).book_id ≡ d.book_id) × ((f d).chapter_index ≡ d.chapter_index))
    → find_chapter b' i' cs ≡ none
    → find_chapter b' i' (update_chapters b i where_ f cs) ≡ none
unfolding find_chapter update_chapters is_at
find_absent-update b i b' i' where_ f [] keeps h = refl
find_absent-update b i b' i' where_ f (d ∷ cs) keeps h =
    ground (arith, keeps d, find_absent-update b i b' i' where_ f cs keeps)

pub Unique-update :
    (b i : ℕ) (where_ : ChapterRow → Bool) (f : ChapterRow → ChapterRow) (cs : List ChapterRow)
    → ((d : ChapterRow) → ((f d).book_id ≡ d.book_id) × ((f d).chapter_index ≡ d.chapter_index))
    → Unique cs
    → Unique (update_chapters b i where_ f cs)
unfolding update_chapters
Unique-update b i where_ f [] keeps q = tt
Unique-update b i where_ f (d ∷ cs) keeps q = ground (
  arith,
  keeps d,
  find_absent-update b i d.book_id d.chapter_index where_ f cs keeps,
  Unique-update b i where_ f cs keeps q.1,
)

unmatched :
    (b i : ℕ) (where_ : ChapterRow → Bool) (f : ChapterRow → ChapterRow) (cs : List ChapterRow)
    → find_chapter b i cs ≡ none
    → update_chapters b i where_ f cs ≡ cs
unfolding find_chapter update_chapters
unmatched b i where_ f [] h = refl
unmatched b i where_ f (c ∷ cs) h = ground (arith, unmatched b i where_ f cs)

-- An UPDATE whose condition the row under the key does not meet changes nothing.
pub update_unmet :
    (b i : ℕ) (where_ : ChapterRow → Bool) (f : ChapterRow → ChapterRow) (cs : List ChapterRow)
    → Unique cs
    → meets where_ (find_chapter b i cs) ≡ false
    → update_chapters b i where_ f cs ≡ cs
unfolding find_chapter update_chapters is_at
update_unmet b i where_ f [] q h = refl
update_unmet b i where_ f (c ∷ cs) q h =
    ground (arith, update_unmet b i where_ f cs q.1, unmatched b i where_ f cs)
