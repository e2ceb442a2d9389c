-- ===== src/Deletion/Gone.antt =====
-- What a deletion that is completed leaves of the files.
use novel_crawler.Prelude.{
  ℕ, String, ◌==◌, Bool, true, false, List, [], ◌∷◌, some, ◌≡◌, refl, sym, ap, ◌∙◌, any, Bool-cases,
  Result-cases, inl, inr, Result, ok, err, err≢ok, eq_iff,
}
use novel_crawler.Deletion.Manifest.{
  Fault, os_error, other_error, value_error, Json, Manifest, decode_deletion_manifest,
}
use novel_crawler.Deletion.Disk.{Root, contents, cache, Disk, place_of}
use novel_crawler.Deletion.Removal.{
  Removes, is_gone, absent_exactly, unlinks, unlink_leaves, removes, remove_leaves,
}
use novel_crawler.Deletion.Jobs.{
  JobRow, is_pending, completed, find_job, update_job, attempted, where_pending,
}
use novel_crawler.Deletion.Process.{
  for_each, ◌then_files◌, look, check_file, check_tree, check_and_unlink, remove_tree, clean_up,
  clean_decoded, block_deletion_job, settle_job, process_row, process_deletion_job,
}
use novel_crawler.Deletion.Table.{find-update}

module _ {F : Type 0} (is_gone : Root → String → F → Bool) where
  -- A step keeps what is gone, and where it returns its path is gone.
  record Clears (r : Root) (step : String → F → F × Result Fault Unit) : Type 0 where
    clears : (p : String) (f : F) → (step p f).1 ≡ ok tt → is_gone r p (step p f).0 ≡ true
    keeps :
        (p : String) (f : F) (r : Root) (q : String)
        → is_gone r q f ≡ true
        → is_gone r q (step p f).0 ≡ true

  module _ (r : Root) (step : String → F → F × Result Fault Unit) (c : Clears r step) where
    for_each_keeps :
        (ps : List String) (f : F) (r' : Root) (q : String)
        → is_gone r' q f ≡ true
        → is_gone r' q (for_each step ps f).0 ≡ true
    unfolding for_each
    for_each_keeps [] f r' q h = h
    for_each_keeps (p ∷ ps) f r' q h = elim (Result-cases (step p f).1) [
      | inr (e, fails) ↦ rw (for_each, fails) (c.keeps p f r' q h)
      | inl (u, works) ↦
          rw (for_each, works) (for_each_keeps ps (step p f).0 r' q (c.keeps p f r' q h))
    ]

    for_each_clears :
        (ps : List String) (f : F) (q : String)
        → (for_each step ps f).1 ≡ ok tt
        → any (λ p. p == q) ps ≡ true
        → is_gone r q (for_each step ps f).0 ≡ true
    unfolding for_each
    for_each_clears [] f q h there = cc
    for_each_clears (p ∷ ps) f q h there = elim (Result-cases (step p f).1) [
      | inr (e, fails) ↦ absurd (err≢ok (rw (for_each, fails) at h))
      | inl (u, works) ↦ elim (Bool-cases (p == q)) [
        | inl here ↦
            let same : p ≡ q = (eq_iff p q).0 here in
            rw (for_each, works)
              (for_each_keeps ps (step p f).0 r q
                (sym (ap (λ x. is_gone r x (step p f).0) same) ∙ c.clears p f works))
        | inr other ↦
            rw (for_each, works)
              (for_each_clears ps (step p f).0 q (rw (for_each, works) at h) (rw other at there))
      ]
    ]

  then_files_ok :
      (x : F × Result Fault Unit) (next : F → F × Result Fault Unit)
      → (x then_files next).1 ≡ ok tt
      → (x.1 ≡ ok tt) × ((x then_files next) ≡ next x.0)
  then_files_ok (f, ok u) next h = (refl, refl)
  then_files_ok (f, err e) next h = absurd (err≢ok h)

module _ {F : Type 0} (json : Json) (disk : Disk F) (laws : Removes disk) where
  unlink-Clears : Clears (is_gone json disk) contents (check_and_unlink json disk)
  unlink-Clears = record { clears = unlinks json disk laws; keeps = unlink_leaves json disk laws }

  remove-Clears : (r : Root) → Clears (is_gone json disk) r (remove_tree json disk r)
  remove-Clears r = record {
    clears = removes json disk laws r;
    keeps = remove_leaves json disk laws r;
  }

  abbrev gone_at : Root → String → F → Bool
  gone_at = is_gone json disk

  -- Every path of a manifest is gone.
  abbrev pub AllGone : Manifest → F → Type 0
  AllGone m f =
      ((q : String)
        → any (λ p. p == q) m.content_files ≡ true
        → disk.exists (place_of disk contents q) f ≡ ok false)
      × ((q : String)
          → any (λ p. p == q) m.content_trees ≡ true
          → disk.exists (place_of disk contents q) f ≡ ok false)
      × ((q : String)
          → any (λ p. p == q) m.cache_trees ≡ true
          → disk.exists (place_of disk cache q) f ≡ ok false)

  clean_up-AllGone :
      (m : Manifest) (f : F)
      → (clean_up json disk m f).1 ≡ ok tt
      → AllGone m (clean_up json disk m f).0
  unfolding clean_up
  clean_up-AllGone m f h =
      let checked =
        for_each (look json disk (check_file json disk)) m.content_files f
        then_files for_each (look json disk (check_tree json disk contents)) m.content_trees
        then_files for_each (look json disk (check_tree json disk cache)) m.cache_trees in
      let s4 = checked then_files for_each (check_and_unlink json disk) m.content_files in
      let s5 = s4 then_files for_each (remove_tree json disk contents) m.content_trees in
      let (ok5, last) =
        then_files_ok gone_at s5 (for_each (remove_tree json disk cache) m.cache_trees) h in
      let (ok4, third) =
        then_files_ok gone_at s4 (for_each (remove_tree json disk contents) m.content_trees) ok5 in
      let (ok3, second) =
        then_files_ok gone_at checked (for_each (check_and_unlink json disk) m.content_files) ok4 in
      let keeps6 =
        for_each_keeps gone_at cache (remove_tree json disk cache) (remove-Clears cache)
          m.cache_trees in
      let keeps5 =
        for_each_keeps gone_at contents (remove_tree json disk contents) (remove-Clears contents)
          m.content_trees in
      let gone6 =
        for_each_clears gone_at cache (remove_tree json disk cache) (remove-Clears cache)
          m.cache_trees s5.0 in
      let gone5 =
        for_each_clears gone_at contents (remove_tree json disk contents) (remove-Clears contents)
          m.content_trees s4.0 in
      let gone4 =
        for_each_clears gone_at contents (check_and_unlink json disk) unlink-Clears m.content_files
          checked.0 in
      let to5 : (r : Root) (q : String) → gone_at r q s4.0 ≡ true → gone_at r q s5.0 ≡ true =
        λ r q there. ap (λ x. gone_at r q x.0) third ∙ keeps5 s4.0 r q there in
      let to6 : (r : Root) (q : String)
          → gone_at r q s5.0 ≡ true
          → gone_at r q (clean_up json disk m f).0 ≡ true =
        λ r q there. ap (λ x. gone_at r q x.0) last ∙ keeps6 s5.0 r q there in
      let gone : (r : Root) (q : String)
          → gone_at r q (clean_up json disk m f).0 ≡ true
          → disk.exists (place_of disk r q) (clean_up json disk m f).0 ≡ ok false =
        λ r q there.
          absent_exactly (disk.exists (place_of disk r q) (clean_up json disk m f).0) there in
      (
        λ q there. gone contents q (
            to6 contents q (
              to5 contents q (
                ap (λ x. gone_at contents q x.0) second
                ∙ gone4 q (sym (ap (λ x. x.1) second) ∙ ok4) there))),
        λ q there. gone contents q (
            to6 contents q (
              ap (λ x. gone_at contents q x.0) third
              ∙ gone5 q (sym (ap (λ x. x.1) third) ∙ ok5) there)),
        λ q there.
            gone cache q
              (ap (λ x. gone_at cache q x.0) last ∙ gone6 q (sym (ap (λ x. x.1) last) ∙ h) there),
      )

  settle_completed :
      (id : ℕ) (jobs : List JobRow) (r : Result Fault Unit)
      → (settle_job json disk id jobs r).1.state ≡ completed
      → r ≡ ok tt
  unfolding settle_job block_deletion_job
  settle_completed id jobs (ok u) h = refl
  settle_completed id jobs (err os_error) h = cc
  settle_completed id jobs (err other_error) h = cc
  settle_completed id jobs (err (value_error text)) h = cc

  row_cleaned :
      (f : F) (r : Result Fault Manifest)
      → (clean_decoded json disk f r).1 ≡ ok tt
      → (m : Manifest) × (r ≡ ok m) × AllGone m (clean_decoded json disk f r).0
  row_cleaned f (ok m) h = (m, refl, clean_up-AllGone m f h)
  row_cleaned f (err e) h = absurd (err≢ok h)

  -- A deletion job that is there and pending, and that `_process_deletion_job` reports as completed:
  -- its manifest could be decoded, and every file and tree that it lists is gone.
  pub process-AllGone :
      (id : ℕ) (jobs : List JobRow) (f : F) (row : JobRow)
      → find_job id jobs ≡ some row
      → is_pending row.state ≡ true
      → (process_deletion_job json disk id jobs f).2.state ≡ completed
      → (m : Manifest) × (decode_deletion_manifest json row.manifest_json ≡ ok m)
        × AllGone m (process_deletion_job json disk id jobs f).1
  unfolding process_deletion_job process_row
  process-AllGone id jobs f row found open_ h =
      let jobs' = update_job id where_pending attempted jobs in
      let there : find_job id jobs' ≡ some (attempted row) =
        find-update id where_pending attempted (λ j. refl) jobs row found open_ in
      let decoded = decode_deletion_manifest json row.manifest_json in
      rw there (
        rw open_ (
          row_cleaned f decoded (
            settle_completed id jobs' (clean_decoded json disk f decoded).1
              (rw open_ at (rw there at h)))))
