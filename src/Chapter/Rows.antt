-- ===== src/Chapter/Rows.antt =====
-- novel_crawler/core/storage.py: the `chapters` table and the claims on it. A time is a natural
-- number of clock ticks: the store compares times and adds a lease to one. A table is a list of rows.
use novel_crawler.Prelude.{
  ℕ, suc, String, ◌==◌, Bool, true, false, ◌&&◌, List, [], ◌∷◌, Option, none, some, leb, ltb, ◌=?◌,
  if◌then◌else◌,
}

-- `ChapterStatus` of models.py
pub data ChapterStatus : Type 0 where
  pending done failed : ChapterStatus

abbrev pub is_done : ChapterStatus → Bool
is_done done = true
is_done _ = false

abbrev pub is_failed : ChapterStatus → Bool
is_failed failed = true
is_failed _ = false

pub record ChapterRow : Type 0 where
  pub book_id : ℕ
  pub chapter_index : ℕ
  pub title : String
  pub status : ChapterStatus
  pub content_path : Option String
  pub content_hash : Option String
  pub error : Option String
  pub claim_owner : Option String
  pub claim_until : Option ℕ
  pub claim_token : Option String
  pub claim_generation : ℕ
  pub attempt_count : ℕ

pub record ClaimLease : Type 0 where
  pub book_id : ℕ
  pub chapter_index : ℕ
  pub owner : String
  pub generation : ℕ
  pub expires_at : ℕ
  pub token : String

-- `KeyError`, `ValueError`, `ChapterContentConflict`, `ChapterClaimConflict`, with their messages
pub data ChapterError : Type 0 where
  chapter_not_found chapter_claim_invalid chapter_claim_conflict chapter_range_invalid :
      ChapterError
  chapter_content_empty chapter_content_conflict chapter_content_duplicate : ChapterError

-- `WHERE book_id=? AND chapter_index=?`
unfoldable pub is_at : ℕ → ℕ → ChapterRow → Bool
is_at book index row = row.book_id =? book && row.chapter_index =? index

unfoldable pub find_chapter : ℕ → ℕ → List ChapterRow → Option ChapterRow
find_chapter book index [] = none
find_chapter book index (c ∷ cs) = if is_at book index c then some c else find_chapter book index cs

-- `UPDATE chapters SET ... WHERE book_id=? AND chapter_index=? AND ...`, and its `rowcount`.
module _ (book index : ℕ) (where_ : ChapterRow → Bool) where
  unfoldable pub update_chapters : (ChapterRow → ChapterRow) → List ChapterRow → List ChapterRow
  update_chapters f [] = []
  update_chapters f (c ∷ cs) =
      let rest = update_chapters f cs in
      if is_at book index c && where_ c then f c ∷ rest else c ∷ rest

  unfoldable pub count_chapters : List ChapterRow → ℕ
  count_chapters [] = 0
  count_chapters (c ∷ cs) =
      let rest = count_chapters cs in if is_at book index c && where_ c then suc rest else rest

-- SQL comparisons: a test on NULL does not hold.
abbrev pub is_null {ℓ} : {A : Type ℓ} → Option A → Bool
is_null none = true
is_null (some a) = false

abbrev pub text_is : Option String → String → Bool
text_is none s = false
text_is (some r) s = r == s

-- `claim_until<=?`
abbrev pub ran_out : Option ℕ → ℕ → Bool
ran_out none now = false
ran_out (some until) now = leb until now

-- `claim_until>?`
abbrev pub runs : Option ℕ → ℕ → Bool
runs none now = false
runs (some until) now = ltb now until
