-- ===== src/Chapter/Claimed.antt =====
-- When `claim_chapter` of storage.py makes a claim, against its WHERE clause in words.
use novel_crawler.Prelude.{
  ℕ, suc, ◌+◌, ◌≤◌, String, ◌==◌, eq_iff, eq_refl, true, false, ◌&&◌, ◌||◌, List, Option, none,
  some, ◌≡◌, ◌⊎◌, refl, arith, leb, ok, Bool-cases, inl, inr, ◌=?◌, ap,
}
use novel_crawler.Chapter.Rows.{
  ChapterRow, ChapterStatus, done, pending, failed, find_chapter, text_is, is_null, ran_out,
  is_done,
}
use novel_crawler.Chapter.Claims.{claim_chapter, is_claimable, claimed_row}
use novel_crawler.Chapter.Table.{Unique, find-update_ne}
use novel_crawler.Chapter.Fencing.{claimed_rows, claimed_found, claim_outcome, claim_refused}

-- A claim of the chapter that does not stand in the way of an owner: none, one of the same owner, or
-- one that has run out.
abbrev pub Yields : String → ℕ → Option String → Option ℕ → Type 0
Yields owner now holder until =
    (holder ≡ none) ⊎ ((holder ≡ some owner) ⊎ ((end : ℕ) × (until ≡ some end) × (end ≤ now)))

abbrev pub MayClaim : String → ℕ → ChapterRow → Type 0
MayClaim owner now row = ¬ (row.status ≡ done) × Yields owner now row.claim_owner row.claim_until

free_claim :
    (owner : String) (now : ℕ) (holder : Option String) (until : Option ℕ)
    → (is_null holder || (text_is holder owner || ran_out until now)) ≡ true
    → Yields owner now holder until
free_claim owner now none until h = inl refl
free_claim owner now (some o) none h =
    let same : o ≡ owner = (eq_iff o owner).0 (ground arith) in inr (inl (ap some same))
free_claim owner now (some o) (some end) h = elim (Bool-cases (o == owner)) [
  | inl same ↦ inr (inl (ap some ((eq_iff o owner).0 same)))
  | inr other ↦ inr (inr (end, refl, ground arith))
]

free_claim_test :
    (owner : String) (now : ℕ) (holder : Option String) (until : Option ℕ)
    → Yields owner now holder until
    → (is_null holder || (text_is holder owner || ran_out until now)) ≡ true
free_claim_test owner now holder until (inl free) = rw free refl
free_claim_test owner now holder until (inr (inl own)) = rw own (rw (eq_refl owner) refl)
free_claim_test owner now holder until (inr (inr (end, at_end, over))) = rw at_end (ground arith)

claimable-MayClaim :
    (owner : String) (now : ℕ) (row : ChapterRow)
    → is_claimable owner now row ≡ true
    → MayClaim owner now row
unfolding is_claimable
claimable-MayClaim owner now row h =
    (λ finished. ground arith, free_claim owner now row.claim_owner row.claim_until (ground arith))

not_done : (s : ChapterStatus) → ¬ (s ≡ done) → is_done s ≡ false
not_done done h = absurd (h refl)
not_done pending h = refl
not_done failed h = refl

unclaimable-MayClaim :
    (owner : String) (now : ℕ) (row : ChapterRow)
    → is_claimable owner now row ≡ false
    → ¬ MayClaim owner now row
unfolding is_claimable
unclaimable-MayClaim owner now row h (open_, free) =
    let test = free_claim_test owner now row.claim_owner row.claim_until free in
    let going = not_done row.status open_ in ground arith

module _ (book index : ℕ) (owner : String) (now lease_seconds : ℕ) (token : String)
    (rows : List ChapterRow) where
  -- `claim_chapter`, with an owner and a positive time, on a chapter that is there: exactly if the
  -- chapter is not done, and has no claim, one of the same owner, or one that has run out, it returns
  -- a lease of the next generation, stores that claim in the row of the chapter and leaves every other
  -- chapter alone; else it returns None and changes nothing.
  pub claim_chapter_exact :
      (row : ChapterRow)
      → Unique rows
      → find_chapter book index rows ≡ some row
      → (owner == "" || leb lease_seconds 0) ≡ false
      → (MayClaim owner now row
          × ((rows' : List ChapterRow) × (claim_chapter book index owner now lease_seconds token
                  rows
                ≡ ok (
                  rows',
                  some (record {
                    book_id = book;
                    chapter_index = index;
                    owner = owner;
                    generation = suc row.claim_generation;
                    expires_at = now + lease_seconds;
                    token = token;
                  }),
                ))
              × (find_chapter book index rows'
                  ≡ some (record row {
                    claim_owner = some owner;
                    claim_until = some (now + lease_seconds);
                    claim_token = some token;
                    claim_generation = suc row.claim_generation;
                    attempt_count = suc row.attempt_count;
                  }))
              × ((b i : ℕ)
                  → (b =? book && i =? index) ≡ false
                  → find_chapter b i rows' ≡ find_chapter b i rows)))
        ⊎ (¬ MayClaim owner now row
            × (claim_chapter book index owner now lease_seconds token rows ≡ ok (rows, none)))
  claim_chapter_exact row q found valid = elim (Bool-cases (is_claimable owner now row)) [
    | inl free ↦ inl (
      claimable-MayClaim owner now row free,
      (
        claimed_rows book index owner now lease_seconds token rows,
        claim_outcome book index owner now lease_seconds token rows q row found valid free,
        unfold claimed_row in
            claimed_found book index owner now lease_seconds token rows q row found valid free,
        λ b i other.
            find-update_ne book index (is_claimable owner now)
              (claimed_row owner (now + lease_seconds) token) b i rows
              (λ d. unfold claimed_row in (refl, refl)) other,
      ),
    )
    | inr taken ↦ inr (
      unclaimable-MayClaim owner now row taken,
      claim_refused book index owner now lease_seconds token rows q row found valid taken,
    )
  ]
