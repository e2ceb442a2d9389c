-- ===== src/Chapter/Content.antt =====
-- `mark_done`, and a chapter that is done.
use novel_crawler.Prelude.{
  ℕ, String, ◌==◌, Bool, true, false, ◌&&◌, ◌||◌, ◌∷◌, Option, none, some, ◌≡◌, refl, arith,
  eq_refl, leb, ok,
}
use novel_crawler.Chapter.Rows.{
  ChapterRow, ClaimLease, done, is_at, is_done, is_null, find_chapter, update_chapters,
}
use novel_crawler.Chapter.Claims.{
  validate_claim, is_claimed, fence, claim_chapter, is_claimable, mark_failed, failed_row,
  safe_error_code,
}
use novel_crawler.Chapter.Done.{
  Library, Store, read_file, unlink, replace_file, done_row, has_duplicate, commit_done,
  done_guards, done_first, mark_done,
}
use novel_crawler.Chapter.Table.{
  Unique, meets, count_exact, find-update_met, update_unmet, Unique-update,
}
use novel_crawler.Chapter.Fencing.{claim_refused}

-- A claim has an owner and an end together.
abbrev pub IsWhole : ChapterRow → Type 0
IsWhole row = is_null row.claim_owner ≡ is_null row.claim_until

-- The fence of the UPDATE lets through what `_validate_claim` let through.
validate-fence :
    (row : ChapterRow) (claim : Option ClaimLease) (now book index : ℕ)
    → IsWhole row
    → is_done row.status ≡ false
    → validate_claim row claim now book index ≡ ok tt
    → fence claim now row ≡ true
unfolding validate_claim fence
validate-fence row none now book index whole open_ h = ground arith
validate-fence row (some claim) now book index whole open_ h = ground arith

-- A chapter that is done with a text.
pub record IsDone (lib : Library) (book index : ℕ) (content path : String) (store : Store)
    (row : ChapterRow) : Type 0 where
  pub found : find_chapter book index store.chapters ≡ some row
  pub status : row.status ≡ done
  pub hash : row.content_hash ≡ some (lib.sha256 content)
  pub place : row.content_path ≡ some path
  pub named : (path == "") ≡ false
  pub text : read_file path store.files ≡ some content
  pub unclaimed : row.claim_owner ≡ none

module _ (lib : Library) (book index : ℕ) (title content path : String) (claim : Option ClaimLease)
    (now : ℕ) (reject : Bool) (store : Store) (q : Unique store.chapters) (row : ChapterRow)
    (found : find_chapter book index store.chapters ≡ some row) where
  abbrev stored : Store
  stored = record {
    chapters =
        update_chapters book index (fence claim now) (done_row title path (lib.sha256 content))
          store.chapters;
    files = (path, content) ∷ unlink path store.files;
  }

  passed :
      done_guards lib book index content claim now row ≡ ok tt
      → validate_claim row claim now book index ≡ ok tt
  unfolding done_guards
  passed pass = ground arith

  stores_row :
      fence claim now row ≡ true
      → find_chapter book index stored.chapters
        ≡ some (done_row title path (lib.sha256 content) row)
  stores_row let_in =
      find-update_met book index (fence claim now) (done_row title path (lib.sha256 content))
        store.chapters row (λ d. unfold done_row is_at in refl) found let_in

  stores_result :
      is_done row.status ≡ false
      → done_guards lib book index content claim now row ≡ ok tt
      → (reject && has_duplicate book index (lib.sha256 content) store.chapters) ≡ false
      → lib.path_of book index ≡ some path
      → fence claim now row ≡ true
      → mark_done lib book index title content claim now reject store ≡ (stored, ok path)
  unfolding mark_done done_first commit_done replace_file
  stores_result open_ pass fresh place let_in = rw (
    found,
    pass,
    open_,
    fresh,
    place,
    count_exact book index (fence claim now) store.chapters q,
    found,
    let_in,
  )

  stores_text : read_file path stored.files ≡ some content
  unfolding read_file
  stores_text = rw (eq_refl path)

  stored_IsDone :
      fence claim now row ≡ true
      → (path == "") ≡ false
      → IsDone lib book index content path stored (done_row title path (lib.sha256 content) row)
  unfolding done_row
  stored_IsDone let_in named = record {
    found = stores_row let_in;
    status = refl;
    hash = refl;
    place = refl;
    named = named;
    text = stores_text;
    unclaimed = refl;
  }

  stored-Unique : Unique stored.chapters
  stored-Unique =
      Unique-update book index (fence claim now) (done_row title path (lib.sha256 content))
        store.chapters (λ d. unfold done_row in (refl, refl)) q

  -- `mark_done` of a chapter that is not done yet, behind a valid claim (or none where none is
  -- active), of a text that is not blank and, where that is asked, not the text of another done
  -- chapter of the book: it returns the path, the row is done with the hash and the path of the
  -- text and with no claim, the file holds the text, and chapters stay unique. The fence of the
  -- UPDATE never refuses it.
  pub mark_done_stores :
      IsWhole row
      → is_done row.status ≡ false
      → done_guards lib book index content claim now row ≡ ok tt
      → (reject && has_duplicate book index (lib.sha256 content) store.chapters) ≡ false
      → lib.path_of book index ≡ some path
      → (path == "") ≡ false
      → let out = mark_done lib book index title content claim now reject store in
        (out.1 ≡ ok path)
        × ((row' : ChapterRow) × IsDone lib book index content path out.0 row')
        × Unique out.0.chapters
  mark_done_stores whole open_ pass fresh place named =
      let let_in = validate-fence row claim now book index whole open_ (passed pass) in
      let returns = stores_result open_ pass fresh place let_in in
      (
        rw returns,
        (done_row title path (lib.sha256 content) row, rw returns (stored_IsDone let_in named)),
        rw returns stored-Unique,
      )

module _ (lib : Library) (book index : ℕ) (content path : String) (now : ℕ) (store : Store)
    (row : ChapterRow) (is_stored : IsDone lib book index content path store row) where
  unclaimed_passes : validate_claim row none now book index ≡ ok tt
  unfolding validate_claim is_claimed
  unclaimed_passes = let free = is_stored.unclaimed in ground arith

  done_row_status : is_done row.status ≡ true
  done_row_status = rw is_stored.status

  unmet_fence : fence none now row ≡ false
  unfolding fence
  unmet_fence = rw done_row_status

  done_unmet : meets (fence none now) (find_chapter book index store.chapters) ≡ false
  done_unmet = rw is_stored.found unmet_fence

  unmet_claim : (owner : String) → is_claimable owner now row ≡ false
  unfolding is_claimable
  unmet_claim owner = rw done_row_status

  -- A done chapter is final: `claim_chapter` gets no lease of it, and `mark_failed` without a claim
  -- leaves it alone, in any table with the unique index.
  pub done_is_final :
      (owner : String) (lease_seconds : ℕ) (token error : String)
      → Unique store.chapters
      → (owner == "" || leb lease_seconds 0) ≡ false
      → (claim_chapter book index owner now lease_seconds token store.chapters
          ≡ ok (store.chapters, none))
        × (mark_failed book index error none now store.chapters ≡ ok store.chapters)
  unfolding mark_failed
  done_is_final owner lease_seconds token error q valid = (
    claim_refused book index owner now lease_seconds token store.chapters q row is_stored.found
        valid (unmet_claim owner),
    rw (
      is_stored.found,
      unclaimed_passes,
      update_unmet book index (fence none now) (failed_row (safe_error_code error)) store.chapters q
          done_unmet,
    ),
  )
