-- ===== src/Chapter/Open.antt =====
-- No call opens or changes a chapter that is done, or brings a chapter in.
use novel_crawler.Prelude.{
  ℕ, ◌+◌, String, ◌==◌, Bool, true, false, not, ◌&&◌, ◌||◌, List, [], ◌∷◌, Option, none, some, ◌≡◌,
  refl, arith, Result, ok, err, ◌=?◌, Bool-cases, Option-cases, Result-cases, inl, inr, leb,
}
use novel_crawler.Chapter.Rows.{
  done, ChapterRow, ClaimLease, ChapterError, is_done, is_at, find_chapter, update_chapters,
  count_chapters,
}
use novel_crawler.Chapter.Claims.{
  validate_claim, safe_error_code, is_claimable, claimed_row, is_releasable, released_row,
  failed_row, fence,
}
use novel_crawler.Chapter.Claims
use novel_crawler.Chapter.Done.{
  Library, Store, done_row, has_duplicate, replace_file, has_file, commit_done, done_guards,
  done_again, done_first, done_checked, done_found,
}
use novel_crawler.Chapter.Done
use novel_crawler.Chapter.Table.{Unique, Unique-update}
use novel_crawler.Chapter.Calls.{ChapterCall, perform, perform_all, claimed_or, failed_or}

-- Whether a chapter is in the table and not done.
abbrev pub is_open : Option ChapterRow → Bool
is_open none = false
is_open (some c) = not (is_done c.status)

abbrev pub is_open_at : ℕ → ℕ → List ChapterRow → Bool
is_open_at book index rows = is_open (find_chapter book index rows)

-- What a change of the table may do: the keys stay unique, no chapter opens, and the row of a done
-- chapter stays as it is.
pub record Closes (rows rows' : List ChapterRow) : Type 0 where
  pub unique : Unique rows → Unique rows'
  pub opens : (b i : ℕ) → is_open_at b i rows' ≡ true → is_open_at b i rows ≡ true
  pub kept :
      (b i : ℕ) (row : ChapterRow)
      → find_chapter b i rows ≡ some row
      → is_done row.status ≡ true
      → find_chapter b i rows' ≡ some row

pub Closes-refl : (rows : List ChapterRow) → Closes rows rows
Closes-refl rows = record { unique = λ q. q; opens = λ b i h. h; kept = λ b i row h d. h }

pub Closes-trans : (r s t : List ChapterRow) → Closes r s → Closes s t → Closes r t
Closes-trans r s t p q = record {
  unique = λ u. q.unique (p.unique u);
  opens = λ b i h. p.opens b i (q.opens b i h);
  kept = λ b i row h d. q.kept b i row (p.kept b i row h d) d;
}

-- An UPDATE of rows that are not done.
update_opens :
    (b i b' i' : ℕ) (where_ : ChapterRow → Bool) (f : ChapterRow → ChapterRow)
    (cs : List ChapterRow)
    → ((d : ChapterRow) → ((f d).book_id ≡ d.book_id) × ((f d).chapter_index ≡ d.chapter_index))
    → ((d : ChapterRow) → where_ d ≡ true → is_done d.status ≡ false)
    → is_open_at b' i' (update_chapters b i where_ f cs) ≡ true
    → is_open_at b' i' cs ≡ true
unfolding update_chapters find_chapter is_at
update_opens b i b' i' where_ f [] keeps guards h = h
update_opens b i b' i' where_ f (d ∷ cs) keeps guards h =
    ground (arith, keeps d, guards d, update_opens b i b' i' where_ f cs keeps guards)

update_kept :
    (b i b' i' : ℕ) (where_ : ChapterRow → Bool) (f : ChapterRow → ChapterRow)
    (cs : List ChapterRow) (row : ChapterRow)
    → ((d : ChapterRow) → ((f d).book_id ≡ d.book_id) × ((f d).chapter_index ≡ d.chapter_index))
    → ((d : ChapterRow) → where_ d ≡ true → is_done d.status ≡ false)
    → find_chapter b' i' cs ≡ some row
    → is_done row.status ≡ true
    → find_chapter b' i' (update_chapters b i where_ f cs) ≡ some row
unfolding update_chapters find_chapter is_at
update_kept b i b' i' where_ f [] row keeps guards h done_ = h
update_kept b i b' i' where_ f (d ∷ cs) row keeps guards h done_ =
    ground (arith, keeps d, guards d, update_kept b i b' i' where_ f cs row keeps guards)

pub update-Closes :
    (b i : ℕ) (where_ : ChapterRow → Bool) (f : ChapterRow → ChapterRow) (cs : List ChapterRow)
    → ((d : ChapterRow) → ((f d).book_id ≡ d.book_id) × ((f d).chapter_index ≡ d.chapter_index))
    → ((d : ChapterRow) → where_ d ≡ true → is_done d.status ≡ false)
    → Closes cs (update_chapters b i where_ f cs)
update-Closes b i where_ f cs keeps guards = record {
  unique = Unique-update b i where_ f cs keeps;
  opens = λ b' i' h. update_opens b i b' i' where_ f cs keeps guards h;
  kept = λ b' i' row h d. update_kept b i b' i' where_ f cs row keeps guards h d;
}

pub claim-Closes :
    (b i : ℕ) (owner : String) (now seconds : ℕ) (token : String) (rows : List ChapterRow)
    → Closes rows (claimed_or rows (Claims.claim_chapter b i owner now seconds token rows))
unfolding Claims.claim_chapter
claim-Closes b i owner now seconds token rows =
    let same = Closes-refl rows in
    let claimed =
      update-Closes b i (is_claimable owner now) (claimed_row owner (now + seconds) token) rows
        (λ d. unfold claimed_row in (refl, refl)) (λ d h. unfold is_claimable in ground arith) in
    elim (Bool-cases (owner == "" || leb seconds 0)) [
      | inl invalid ↦ rw invalid same
      | inr valid ↦ elim (Bool-cases (count_chapters b i (is_claimable owner now) rows =? 1)) [
        | inl one ↦ rw (valid, one) claimed
        | inr none_ ↦ rw (valid, none_) same
      ]
    ]

pub release-Closes :
    (b i : ℕ) (claim : ClaimLease) (rows : List ChapterRow)
    → Closes rows (Claims.release_chapter_claim b i claim rows).0
unfolding Claims.release_chapter_claim
release-Closes b i claim rows =
    update-Closes b i (is_releasable claim) released_row rows
      (λ d. unfold released_row in (refl, refl)) (λ d h. unfold is_releasable in ground arith)

fence_open :
    (claim : Option ClaimLease) (now : ℕ) (d : ChapterRow)
    → fence claim now d ≡ true
    → is_done d.status ≡ false
unfolding fence
fence_open none now d h = ground arith
fence_open (some claim) now d h = ground arith

pub mark_failed-Closes :
    (b i : ℕ) (error : String) (claim : Option ClaimLease) (now : ℕ) (rows : List ChapterRow)
    → Closes rows (failed_or rows (Claims.mark_failed b i error claim now rows))
unfolding Claims.mark_failed
mark_failed-Closes b i error claim now rows = elim (Option-cases (find_chapter b i rows)) [
  | inl missing ↦ rw missing (Closes-refl rows)
  | inr (row, found) ↦ elim (Result-cases (validate_claim row claim now b i)) [
    | inr (e, invalid) ↦ rw (found, Claims.mark_failed_row, invalid) (Closes-refl rows)
    | inl (u, valid) ↦
        rw (found, Claims.mark_failed_row, valid)
          (update-Closes b i (fence claim now) (failed_row (safe_error_code error)) rows
            (λ d. unfold failed_row in (refl, refl)) (λ d h. fence_open claim now d h))
  ]
]

pub again_keeps :
    (lib : Library) (digest : String) (row : ChapterRow) (store : Store)
    → (done_again lib digest row store).0 ≡ store
unfolding done_again
again_keeps lib digest row store = ground arith

commit-Closes :
    (lib : Library) (b i : ℕ) (title path digest : String) (claim : Option ClaimLease) (now : ℕ)
    (store : Store)
    → Closes store.chapters (commit_done lib b i title path digest claim now store).0.chapters
unfolding commit_done
commit-Closes lib b i title path digest claim now store =
    elim (Bool-cases (count_chapters b i (fence claim now) store.chapters =? 1)) [
      | inr other ↦ rw other (Closes-refl store.chapters)
      | inl one ↦ rw one (
          update-Closes b i (fence claim now) (done_row title path digest) store.chapters
            (λ d. unfold done_row in (refl, refl)) (λ d h. fence_open claim now d h))
    ]

module _ (lib : Library) (b i : ℕ) (title content : String) (claim : Option ClaimLease) (now : ℕ)
    (reject : Bool) (store : Store) where
  first-Closes :
      Closes store.chapters (done_first lib b i title content claim now reject store).0.chapters
  unfolding done_first
  first-Closes =
      elim (Bool-cases (reject && has_duplicate b i (lib.sha256 content) store.chapters)) [
        | inl duplicate ↦ rw duplicate (Closes-refl store.chapters)
        | inr fresh ↦ elim (Option-cases (lib.path_of b i)) [
          | inl nowhere ↦ rw (fresh, nowhere) (Closes-refl store.chapters)
          | inr (path, place) ↦
              rw (fresh, place)
                (commit-Closes lib b i title path (lib.sha256 content) claim now
                  (record store { files = replace_file path content store.files }))
        ]
      ]

  again-Closes :
      (row : ChapterRow)
      → Closes store.chapters (done_again lib (lib.sha256 content) row store).0.chapters
  again-Closes row =
      rw (again_keeps lib (lib.sha256 content) row store) (Closes-refl store.chapters)

  checked-Closes :
      (row : ChapterRow) (checked : Result ChapterError Unit)
      → Closes store.chapters
          (done_checked lib b i title content claim now reject store row checked).0.chapters
  unfolding done_checked
  checked-Closes row (err e) = Closes-refl store.chapters
  checked-Closes row (ok u) = elim (Bool-cases (is_done row.status)) [
    | inl finished ↦ rw finished (again-Closes row)
    | inr open_ ↦ rw open_ first-Closes
  ]

pub mark_done-Closes :
    (lib : Library) (b i : ℕ) (title content : String) (claim : Option ClaimLease) (now : ℕ)
    (reject : Bool) (store : Store)
    → Closes store.chapters (Done.mark_done lib b i title content claim now reject store).0.chapters
unfolding Done.mark_done
mark_done-Closes lib b i title content claim now reject store =
    elim (Option-cases (find_chapter b i store.chapters)) [
      | inl missing ↦ rw missing (Closes-refl store.chapters)
      | inr (row, found) ↦ rw found (
          checked-Closes lib b i title content claim now reject store row
            (done_guards lib b i content claim now row))
    ]

reset_opens :
    (b b' i' : ℕ) (cs : List ChapterRow)
    → is_open_at b' i' (Claims.reset_failed b cs) ≡ true
    → is_open_at b' i' cs ≡ true
unfolding Claims.reset_failed find_chapter is_at
reset_opens b b' i' [] h = h
reset_opens b b' i' (d ∷ cs) h = ground (arith, reset_opens b b' i' cs)

reset_kept :
    (b b' i' : ℕ) (cs : List ChapterRow) (row : ChapterRow)
    → find_chapter b' i' cs ≡ some row
    → is_done row.status ≡ true
    → find_chapter b' i' (Claims.reset_failed b cs) ≡ some row
unfolding Claims.reset_failed find_chapter is_at
reset_kept b b' i' [] row h done_ = h
reset_kept b b' i' (d ∷ cs) row h done_ = ground (arith, reset_kept b b' i' cs row)

reset_absent :
    (b b' i' : ℕ) (cs : List ChapterRow)
    → find_chapter b' i' cs ≡ none
    → find_chapter b' i' (Claims.reset_failed b cs) ≡ none
unfolding Claims.reset_failed find_chapter is_at
reset_absent b b' i' [] h = refl
reset_absent b b' i' (d ∷ cs) h = ground (arith, reset_absent b b' i' cs)

reset-Unique : (b : ℕ) (cs : List ChapterRow) → Unique cs → Unique (Claims.reset_failed b cs)
unfolding Claims.reset_failed
reset-Unique b [] q = tt
reset-Unique b (d ∷ cs) q =
    ground (arith, reset_absent b d.book_id d.chapter_index cs, reset-Unique b cs q.1)

pub reset-Closes : (b : ℕ) (rows : List ChapterRow) → Closes rows (Claims.reset_failed b rows)
reset-Closes b rows = record {
  unique = λ q. reset-Unique b rows q;
  opens = λ b' i' h. reset_opens b b' i' rows h;
  kept = λ b' i' row h d. reset_kept b b' i' rows row h d;
}

pub perform-Closes :
    (lib : Library) (c : ChapterCall) (store : Store)
    → Closes store.chapters (perform lib c store).chapters
unfolding perform
perform-Closes lib (ChapterCall.claim_chapter b i owner now seconds token) store =
    claim-Closes b i owner now seconds token store.chapters
perform-Closes lib (ChapterCall.release_chapter_claim b i claim) store =
    release-Closes b i claim store.chapters
perform-Closes lib (ChapterCall.mark_failed b i error claim now) store =
    mark_failed-Closes b i error claim now store.chapters
perform-Closes lib (ChapterCall.reset_failed b) store = reset-Closes b store.chapters
perform-Closes lib (ChapterCall.mark_done b i title content claim now reject) store =
    mark_done-Closes lib b i title content claim now reject store

pub perform_all-Closes :
    (lib : Library) (cs : List ChapterCall) (store : Store)
    → Closes store.chapters (perform_all lib cs store).chapters
unfolding perform_all
perform_all-Closes lib [] store = Closes-refl store.chapters
perform_all-Closes lib (c ∷ cs) store =
    Closes-trans store.chapters (perform lib c store).chapters
      (perform_all lib (c ∷ cs) store).chapters (perform-Closes lib c store)
      (perform_all-Closes lib cs (perform lib c store))

-- A done chapter stays as it is: whatever calls of `claim_chapter`, `release_chapter_claim`,
-- `mark_failed`, `reset_failed` and `mark_done` anyone makes, with any claims, texts and times, its row
-- is unchanged behind them.
pub done_stays :
    (lib : Library) (cs : List ChapterCall) (store : Store) (b i : ℕ) (row : ChapterRow)
    → find_chapter b i store.chapters ≡ some row
    → row.status ≡ done
    → find_chapter b i (perform_all lib cs store).chapters ≡ some row
done_stays lib cs store b i row found finished =
    (perform_all-Closes lib cs store).kept b i row found (rw finished refl)
