-- ===== src/Chapter/Fencing.antt =====
-- Claims of one chapter, and the leases of claims that were made before.
use novel_crawler.Prelude.{
  ℕ, suc, ◌+◌, ◌<◌, String, ◌==◌, true, false, ◌||◌, List, none, some, ◌≡◌, refl, arith, leb, ok,
  err, Bool-cases, inl, inr, err≢ok, Result, Option, Bool, some_inj, Option-cases, sym, ◌∙◌,
}
use novel_crawler.Chapter.Rows.{
  ChapterRow, ClaimLease, ChapterError, chapter_claim_conflict, is_at, find_chapter,
  update_chapters,
}
use novel_crawler.Chapter.Claims.{
  claim_chapter, is_claimable, claimed_row, lease_of, release_chapter_claim, is_releasable,
  released_row, mark_failed, validate_claim, is_valid_claim,
}
use novel_crawler.Chapter.Done.{Library, Store, mark_done, done_guards}
use novel_crawler.Chapter.Table.{
  Unique, meets, count_exact, find-update_met, Unique-update, update_unmet,
}

abbrev pub lease_for : ℕ → ℕ → String → ℕ → String → ChapterRow → ClaimLease
lease_for book index owner until token row = record {
  book_id = book;
  chapter_index = index;
  owner = owner;
  generation = suc row.claim_generation;
  expires_at = until;
  token = token;
}

abbrev pub claimed_rows : ℕ → ℕ → String → ℕ → ℕ → String → List ChapterRow → List ChapterRow
claimed_rows book index owner now lease_seconds token rows =
    update_chapters book index (is_claimable owner now)
      (claimed_row owner (now + lease_seconds) token) rows

module _ (book index : ℕ) (owner : String) (now lease_seconds : ℕ) (token : String)
    (rows : List ChapterRow) (q : Unique rows) (row : ChapterRow)
    (found : find_chapter book index rows ≡ some row)
    (valid : (owner == "" || leb lease_seconds 0) ≡ false) where
  pub claimed_found :
      is_claimable owner now row ≡ true
      → find_chapter book index (claimed_rows book index owner now lease_seconds token rows)
        ≡ some (claimed_row owner (now + lease_seconds) token row)
  claimed_found free =
      find-update_met book index (is_claimable owner now)
        (claimed_row owner (now + lease_seconds) token) rows row
        (λ d. unfold claimed_row is_at in refl) found free

  pub claim_outcome :
      is_claimable owner now row ≡ true
      → claim_chapter book index owner now lease_seconds token rows
        ≡ ok (
          claimed_rows book index owner now lease_seconds token rows,
          some (lease_for book index owner (now + lease_seconds) token row),
        )
  unfolding claim_chapter lease_of
  claim_outcome free = rw (
    valid,
    count_exact book index (is_claimable owner now) rows q,
    found,
    free,
    claimed_found free,
  )

  pub claim_refused :
      is_claimable owner now row ≡ false
      → claim_chapter book index owner now lease_seconds token rows ≡ ok (rows, none)
  unfolding claim_chapter
  claim_refused taken =
      rw (valid, count_exact book index (is_claimable owner now) rows q, found, taken)

abbrev Claim : Type 0
Claim = Result ChapterError (List ChapterRow × Option ClaimLease)

none_made :
    (a b : List ChapterRow) (l : ClaimLease) → Path Claim (ok (a, none)) (ok (b, some l)) → ⊥
none_made a b l h = cc

same_made :
    (a b : List ChapterRow) (l m : ClaimLease)
    → Path Claim (ok (a, some l)) (ok (b, some m))
    → (a ≡ b) × (l ≡ m)
same_made a b l m h = (cc, cc)

-- A claim that was made: the row that it read, and what it left and returned.
record IsMade (book index : ℕ) (owner : String) (now lease_seconds : ℕ) (token : String)
    (rows rows' : List ChapterRow) (lease : ClaimLease) : Type 0 where
  row : ChapterRow
  found : find_chapter book index rows ≡ some row
  rows_after : rows' ≡ claimed_rows book index owner now lease_seconds token rows
  lease_made : lease ≡ lease_for book index owner (now + lease_seconds) token row
  found_after :
      find_chapter book index rows' ≡ some (claimed_row owner (now + lease_seconds) token row)
  unique_after : Unique rows'

module _ (book index : ℕ) (owner : String) (now lease_seconds : ℕ) (token : String)
    (rows rows' : List ChapterRow) (lease : ClaimLease) (q : Unique rows)
    (h : claim_chapter book index owner now lease_seconds token rows ≡ ok (rows', some lease)) where
  made_valid : (owner == "" || leb lease_seconds 0) ≡ false
  unfolding claim_chapter
  made_valid = elim (Bool-cases (owner == "" || leb lease_seconds 0)) [
    | inl invalid ↦ absurd (err≢ok (rw invalid at h))
    | inr valid ↦ valid
  ]

  made_found : (row : ChapterRow) × (find_chapter book index rows ≡ some row)
  unfolding claim_chapter
  made_found = elim (Option-cases (find_chapter book index rows)) [
    | inr found ↦ found
    | inl missing ↦ absurd (
        none_made rows rows' lease
          (rw (made_valid, count_exact book index (is_claimable owner now) rows q, missing) at h))
  ]

  made_free :
      (row : ChapterRow)
      → find_chapter book index rows ≡ some row
      → is_claimable owner now row ≡ true
  made_free row found = elim (Bool-cases (is_claimable owner now row)) [
    | inl free ↦ free
    | inr taken ↦ absurd (
        none_made rows rows' lease (
          sym (
            claim_refused book index owner now lease_seconds token rows q row found made_valid
              taken)
          ∙ h))
  ]

  claim-IsMade : IsMade book index owner now lease_seconds token rows rows' lease
  claim-IsMade =
      let (row, found) = made_found in
      let free = made_free row found in
      let (after, made) =
        same_made (claimed_rows book index owner now lease_seconds token rows) rows'
          (lease_for book index owner (now + lease_seconds) token row) lease
          (sym (
              claim_outcome book index owner now lease_seconds token rows q row found made_valid
                free)
            ∙ h) in
      record {
        row = row;
        found = found;
        rows_after = sym after;
        lease_made = sym made;
        found_after = rw (← after) (
            claimed_found book index owner now lease_seconds token rows q row found made_valid
              free);
        unique_after = rw (← after) (
            Unique-update book index (is_claimable owner now)
              (claimed_row owner (now + lease_seconds) token) rows
              (λ d. unfold claimed_row in (refl, refl)) q);
      }

  -- Behind a claim that was made, no other owner gets the chapter until the claim runs out: its
  -- `claim_chapter` returns None and changes nothing.
  pub claim_excludes :
      (other : String) (now' lease_seconds' : ℕ) (token' : String)
      → (other == "" || leb lease_seconds' 0) ≡ false
      → (owner == other) ≡ false
      → now' < now + lease_seconds
      → claim_chapter book index other now' lease_seconds' token' rows' ≡ ok (rows', none)
  claim_excludes other now' lease_seconds' token' valid' differ early =
      let made = claim-IsMade in
      let claimed = claimed_row owner (now + lease_seconds) token made.row in
      let taken : is_claimable other now' claimed ≡ false =
        unfold is_claimable claimed_row in ground arith in
      claim_refused book index other now' lease_seconds' token' rows' made.unique_after claimed
        made.found_after valid' taken

stale_generation :
    (book index : ℕ) (owner1 owner2 token1 token2 : String) (until1 until2 : ℕ) (row : ChapterRow)
    (now b i : ℕ)
    → let lease = lease_for book index owner1 until1 token1 row in
      let row2 = claimed_row owner2 until2 token2 (claimed_row owner1 until1 token1 row) in
      (is_valid_claim row2 lease now b i ≡ false) × (is_releasable lease row2 ≡ false)
unfolding is_valid_claim is_releasable claimed_row
stale_generation book index owner1 owner2 token1 token2 until1 until2 row now b i =
    (ground arith, ground arith)

-- Two claims of one chapter that were made, one after the other.
module _ (book index : ℕ) (rows rows1 rows2 : List ChapterRow) (lease1 lease2 : ClaimLease)
    (owner1 owner2 : String) (now1 time1 now2 time2 : ℕ) (token1 token2 : String) where
  superseded :
      IsMade book index owner1 now1 time1 token1 rows rows1 lease1
      → IsMade book index owner2 now2 time2 token2 rows1 rows2 lease2
      → (now : ℕ)
      → (row : ChapterRow) × (find_chapter book index rows2 ≡ some row)
        × (is_valid_claim row lease1 now book index ≡ false)
        × (is_releasable lease1 row ≡ false)
  superseded first second now =
      let until1 = now1 + time1 in
      let until2 = now2 + time2 in
      let same : second.row ≡ claimed_row owner1 until1 token1 first.row =
        some_inj (sym second.found ∙ first.found_after) in
      let (bad, kept) =
        stale_generation book index owner1 owner2 token1 token2 until1 until2 first.row now book
          index in
      (
        claimed_row owner2 until2 token2 second.row,
        second.found_after,
        rw (same, first.lease_made) bad,
        rw (same, first.lease_made) kept,
      )

  -- Once a claim was made of a chapter and then another one, by whomever, the lease of the first is
  -- worth nothing at any time: with it `mark_failed` and `mark_done` raise a claim conflict, the
  -- second changing neither table nor files, and so does `release_chapter_claim`, which leaves the
  -- table as it is.
  pub superseded_lease_fenced :
      (lib : Library) (error title content : String) (now : ℕ) (reject : Bool)
      (files : List (String × String))
      → Unique rows
      → claim_chapter book index owner1 now1 time1 token1 rows ≡ ok (rows1, some lease1)
      → claim_chapter book index owner2 now2 time2 token2 rows1 ≡ ok (rows2, some lease2)
      → let store : Store = record { chapters = rows2; files = files } in
        (mark_failed book index error (some lease1) now rows2 ≡ err chapter_claim_conflict)
        × (mark_done lib book index title content (some lease1) now reject store
            ≡ (store, err chapter_claim_conflict))
        × (release_chapter_claim book index lease1 rows2 ≡ (rows2, err chapter_claim_conflict))
  unfolding mark_failed mark_done done_guards release_chapter_claim validate_claim
  superseded_lease_fenced lib error title content now reject files q first second =
      let made1 = claim-IsMade book index owner1 now1 time1 token1 rows rows1 lease1 q first in
      let made2 =
        claim-IsMade book index owner2 now2 time2 token2 rows1 rows2 lease2 made1.unique_after
          second in
      let (row, there, bad, kept) = superseded made1 made2 now in
      let unmet : meets (is_releasable lease1) (find_chapter book index rows2) ≡ false =
        rw there kept in
      (
        rw (there, bad),
        rw (there, bad),
        rw (
          update_unmet book index (is_releasable lease1) released_row rows2 made2.unique_after
              unmet,
          count_exact book index (is_releasable lease1) rows2 made2.unique_after,
          unmet,
        ),
      )
