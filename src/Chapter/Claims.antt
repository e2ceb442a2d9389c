-- ===== src/Chapter/Claims.antt =====
-- `Storage._validate_claim`, `claim_chapter`, `release_chapter_claim`, `mark_failed` and
-- `reset_failed`. Each runs in one transaction: a call that raises leaves the table as it was.
use novel_crawler.Prelude.{
  ℕ, suc, ◌+◌, String, ◌==◌, Bool, not, ◌&&◌, ◌||◌, List, [], ◌∷◌, Option, none, some, any, leb,
  ltb, ◌=?◌, if◌then◌else◌, Result, ok, ◌>>◌, raise_if,
}
use novel_crawler.Chapter.Rows.{
  pending, failed, ChapterRow, ClaimLease, ChapterError, chapter_claim_invalid,
  chapter_claim_conflict, is_done, is_failed, find_chapter, update_chapters, count_chapters,
  is_null, text_is, ran_out, runs,
}

-- `_SAFE_ERROR_CODES`
abbrev pub safe_error_codes : List String
safe_error_codes =
    "chapter_download_failed" ∷ "chapter_content_duplicate" ∷ "chapter_content_empty"
    ∷ "chapter_redirect_mismatch" ∷ "chapter_title_mismatch" ∷ "chapter_processor_failed"
    ∷ "connection_timeout" ∷ "duplicate_content" ∷ "empty_content" ∷ "parse_failed"
    ∷ "source_fetch_failed" ∷ []

-- `_safe_error_code`
unfoldable pub safe_error_code : String → String
safe_error_code error =
    if any (λ e. e == error) safe_error_codes then error else "chapter_download_failed"

-- `active` of `_validate_claim`
unfoldable pub is_claimed : ChapterRow → ℕ → Bool
is_claimed row now = not (is_null row.claim_owner) && runs row.claim_until now

-- `valid` of `_validate_claim`
unfoldable pub is_valid_claim : ChapterRow → ClaimLease → ℕ → ℕ → ℕ → Bool
unfolding is_claimed
is_valid_claim row claim now book index =
    is_claimed row now
    && (claim.book_id =? book
        && (claim.chapter_index =? index
            && (text_is row.claim_owner claim.owner
                && (row.claim_generation =? claim.generation
                    && (text_is row.claim_token claim.token && ltb now claim.expires_at)))))

-- `_validate_claim`
unfoldable pub validate_claim :
    ChapterRow → Option ClaimLease → ℕ → ℕ → ℕ → Result ChapterError Unit
unfolding is_valid_claim is_claimed
validate_claim row none now book index = raise_if (is_claimed row now) chapter_claim_conflict
validate_claim row (some claim) now book index =
    raise_if (not (is_valid_claim row claim now book index)) chapter_claim_conflict

-- `fence` of `_commit_done` and of `mark_failed`, behind `status!='done'`
unfoldable pub fence : Option ClaimLease → ℕ → ChapterRow → Bool
fence none now row =
    not (is_done row.status) && (is_null row.claim_owner || ran_out row.claim_until now)
fence (some claim) now row =
    not (is_done row.status)
    && (text_is row.claim_owner claim.owner
        && (row.claim_generation =? claim.generation
            && (text_is row.claim_token claim.token && runs row.claim_until now)))

-- The WHERE clause of `claim_chapter`, behind its key.
unfoldable pub is_claimable : String → ℕ → ChapterRow → Bool
is_claimable owner now row =
    not (is_done row.status)
    && (is_null row.claim_owner || (text_is row.claim_owner owner || ran_out row.claim_until now))

unfoldable pub claimed_row : String → ℕ → String → ChapterRow → ChapterRow
claimed_row owner until token row = record row {
  claim_owner = some owner;
  claim_until = some until;
  claim_token = some token;
  claim_generation = suc row.claim_generation;
  attempt_count = suc row.attempt_count;
}

-- The lease that `claim_chapter` builds from the row that it reads back.
unfoldable pub lease_of : ℕ → ℕ → String → String → ℕ → Option ChapterRow → Option ClaimLease
lease_of book index owner token until none = none
lease_of book index owner token until (some row) = some (record {
  book_id = book;
  chapter_index = index;
  owner = owner;
  generation = row.claim_generation;
  expires_at = until;
  token = token;
})

-- `claim_chapter` at the time `now`, with the token that `secrets.token_urlsafe` drew.
unfoldable pub claim_chapter :
    ℕ
    → ℕ
    → String
    → ℕ
    → ℕ
    → String
    → List ChapterRow
    → Result ChapterError (List ChapterRow × Option ClaimLease)
unfolding is_claimable claimed_row lease_of
claim_chapter book index owner now lease_seconds token rows = do
  raise_if (owner == "" || leb lease_seconds 0) chapter_claim_invalid
  let until = now + lease_seconds
  let updated =
      update_chapters book index (is_claimable owner now) (claimed_row owner until token) rows
  if count_chapters book index (is_claimable owner now) rows =? 1
      then ok (updated, lease_of book index owner token until (find_chapter book index updated))
      else ok (rows, none)

-- The WHERE clause of `release_chapter_claim`, behind its key.
unfoldable pub is_releasable : ClaimLease → ChapterRow → Bool
is_releasable claim row =
    not (is_done row.status)
    && (text_is row.claim_owner claim.owner
        && (row.claim_generation =? claim.generation && text_is row.claim_token claim.token))

unfoldable pub released_row : ChapterRow → ChapterRow
released_row row = record row { claim_owner = none; claim_until = none; claim_token = none }

-- `release_chapter_claim`: the UPDATE is committed before the test of its `rowcount`.
unfoldable pub release_chapter_claim :
    ℕ → ℕ → ClaimLease → List ChapterRow → List ChapterRow × Result ChapterError Unit
unfolding is_releasable released_row
release_chapter_claim book index claim rows = (
  update_chapters book index (is_releasable claim) released_row rows,
  raise_if (not (count_chapters book index (is_releasable claim) rows =? 1)) chapter_claim_conflict,
)

unfoldable pub failed_row : String → ChapterRow → ChapterRow
failed_row error row = record row {
  status = failed;
  error = some error;
  attempt_count = row.attempt_count + (if is_null row.claim_owner then 1 else 0);
  claim_owner = none;
  claim_until = none;
  claim_token = none;
}

-- `mark_failed`; a chapter that is not there is passed over.
unfoldable pub mark_failed_row :
    ℕ
    → ℕ
    → String
    → Option ClaimLease
    → ℕ
    → List ChapterRow
    → Option ChapterRow
    → Result ChapterError (List ChapterRow)
unfolding validate_claim fence failed_row
mark_failed_row book index error claim now rows none = ok rows
mark_failed_row book index error claim now rows (some row) = do
  validate_claim row claim now book index
  ok (update_chapters book index (fence claim now) (failed_row error) rows)

unfoldable pub mark_failed :
    ℕ → ℕ → String → Option ClaimLease → ℕ → List ChapterRow → Result ChapterError (List ChapterRow)
unfolding safe_error_code mark_failed_row
mark_failed book index error claim now rows =
    mark_failed_row book index (safe_error_code error) claim now rows (find_chapter book index rows)

-- `reset_failed`
unfoldable pub reset_failed : ℕ → List ChapterRow → List ChapterRow
reset_failed book [] = []
reset_failed book (c ∷ cs) =
    let rest = reset_failed book cs in
    if c.book_id =? book && is_failed c.status
    then record c { status = pending; error = none } ∷ rest
    else c ∷ rest
