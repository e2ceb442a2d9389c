-- ===== src/Deletion/Witness.antt =====
-- The instances of the theorems on deletions at a book with one file.
use novel_crawler.Prelude.{
  ◌+◌, ◌≤◌, String, ◌==◌, Bool, true, false, not, ◌&&◌, ◌||◌, List, [], ◌∷◌, none, some, length,
  ◌≡◌, ◌⊎◌, refl, ap, ok_inj, any, arith, if◌then◌else◌, Result, ok, err, codes,
}
use novel_crawler.Task.Values.{Value, Items, Fields}
use novel_crawler.Batch.Payload.{get_field}
use novel_crawler.Deletion.Paths.{
  Part, walk, follow, split_slash, IsBelow, valid_manifest_relative_path, is_relative_path,
  ends_slash, has_double_slash,
}
use novel_crawler.Deletion.Manifest.{
  Fault, Json, Manifest, decode_deletion_manifest, decode_fields, check_count, has_keys, only_known,
  paths_in, max_deletion_paths,
}
use novel_crawler.Deletion.Safe.{is_listed, decode-IsBelow}
use novel_crawler.Deletion.Jobs.{
  JobRow, pending, BookDeletionResult, completed, find_job, update_job, delete_job,
}
use novel_crawler.Deletion.Process.{
  process_deletion_job, process_row, clean_up, for_each, settle_job, retry_deletion_job, retry_row,
}
use novel_crawler.Deletion.Table.{Unique}
use novel_crawler.Deletion.Reports.{Reports, retry-Reports}
use novel_crawler.Deletion.Removal.{Removes}
use novel_crawler.Deletion.Gone.{AllGone, process-AllGone}
use novel_crawler.Deletion.Inside.{Inside}
use novel_crawler.Deletion.Disk.{
  Place, Disk, place_of, join_manifest_path, validate_content_path, validate_tree_under,
  remove_tree_under, unlink_file, check_inside, check_parts, check_descendants, is_reparse_point,
  relative_to, is_parent, is_outside, same_place, same_part,
}
use novel_crawler.Deletion.Books.{BookRow, Catalog, delete_book}
use novel_crawler.Deletion.Atomic.{Deleted, delete_book-Deleted}

-- A disk is the list of the places that are there; a directory is a place with another one below it.
abbrev stands : Place → List Place → Bool
stands p [] = false
stands p (q ∷ f) = same_place p q || stands p f

abbrev keep : (Place → Bool) → List Place → List Place
keep test [] = []
keep test (q ∷ f) = let rest = keep test f in if test q then q ∷ rest else rest

abbrev has_below : Place → List Place → Bool
has_below p f = any (λ q. is_parent p q) f

abbrev without : Place → List Place → List Place
without p f = keep (λ q. not (same_place p q)) f

abbrev without_tree : Place → List Place → List Place
without_tree p f = keep (λ q. not (same_place p q || is_parent p q)) f

abbrev disk : Disk (List Place)
disk = record {
  data_dir = codes "data" ∷ [];
  resolve = λ p f. ok p;
  stat = λ p f. ok (if stands p f then some false else none);
  is_symlink = λ p f. ok false;
  is_junction = λ p f. ok false;
  exists = λ p f. ok (stands p f);
  is_file = λ p f. ok (stands p f && not (has_below p f));
  is_dir = λ p f. ok (has_below p f);
  descendants = λ p f. ok (keep (λ q. is_parent p q) f);
  unlink = λ p f. (without p f, ok tt);
  rmtree = λ p f. (without_tree p f, ok tt);
}

stands-keep :
    (test : Place → Bool) (f : List Place) (p : Place)
    → stands p f ≡ false
    → stands p (keep test f) ≡ false
stands-keep test [] p h = refl
stands-keep test (q ∷ f) p h = ground (arith, stands-keep test f p)

stands-without : (p : Place) (f : List Place) → stands p (without p f) ≡ false
stands-without p [] = refl
stands-without p (q ∷ f) = ground (arith, stands-without p f)

stands-without_tree : (p : Place) (f : List Place) → stands p (without_tree p f) ≡ false
stands-without_tree p [] = refl
stands-without_tree p (q ∷ f) = ground (arith, stands-without_tree p f)

disk-Removes : Removes disk
disk-Removes = record {
  unlinked = λ p f h. ap ok (stands-without p f);
  unlink_keeps = λ p f q h. ap ok (stands-keep _ f q (ok_inj h));
  removed = λ p f h. ap ok (stands-without_tree p f);
  rmtree_keeps = λ p f q h. ap ok (stands-keep _ f q (ok_inj h));
}

abbrev listed : Value
listed = Value.object (
    Fields.field "cache_trees" (Value.array Items.nil) (
      Fields.field "content_files" (Value.array (Items.item (Value.text "1/1.txt") Items.nil)) (
        Fields.field "content_trees" (Value.array (Items.item (Value.text "1") Items.nil))
          (Fields.field "version" (Value.number "1") Fields.end))))

abbrev json : Json
json = record { loads = λ s. some listed; is_one = λ s. s == "1"; utf8_length = λ s. 100 }

abbrev manifest : Manifest
manifest = record { cache_trees = []; content_files = "1/1.txt" ∷ []; content_trees = "1" ∷ [] }

decoded : decode_deletion_manifest json "{}" ≡ ok manifest
unfolding decode_deletion_manifest decode_fields check_count has_keys only_known paths_in get_field
    valid_manifest_relative_path is_relative_path split_slash ends_slash has_double_slash
decoded = refl

decode-IsBelow_example :
    (length manifest.cache_trees + (length manifest.content_files + length manifest.content_trees)
      ≤ max_deletion_paths)
    × ((here : List Part) (value : String)
        → is_listed value manifest ≡ true
        → IsBelow here (walk here (split_slash (codes value))))
decode-IsBelow_example = decode-IsBelow json "{}" manifest decoded

abbrev job : JobRow
job = record { id = 3; manifest_json = "{}"; state = pending; attempt_count = 0; error_code = none }

abbrev place : List String → Place
place [] = codes "contents" ∷ (codes "data" ∷ [])
place (p ∷ ps) = codes p ∷ place ps

-- Two files of book 1, its directory, and a file of book 2; the last part of a place comes first.
abbrev paths : List Place
paths =
    place ("1.txt" ∷ "1" ∷ [])
    ∷ place ("2.txt" ∷ "1" ∷ [])
    ∷ place ("1" ∷ [])
    ∷ place ("1.txt" ∷ "2" ∷ [])
    ∷ []

completes : (process_deletion_job json disk 3 (job ∷ []) paths).2.state ≡ completed
unfolding process_deletion_job process_row clean_up for_each settle_job find_job update_job
    delete_job decode_deletion_manifest decode_fields check_count has_keys only_known paths_in
    get_field valid_manifest_relative_path is_relative_path split_slash ends_slash has_double_slash
    place_of join_manifest_path validate_content_path validate_tree_under remove_tree_under
    unlink_file check_inside check_parts check_descendants is_reparse_point relative_to is_parent
    is_outside same_place same_part walk follow
completes = refl

job_found : find_job 3 (job ∷ []) ≡ some job
unfolding find_job
job_found = refl

process-AllGone_example :
    (m : Manifest) × (decode_deletion_manifest json "{}" ≡ ok m)
    × AllGone json disk disk-Removes m (process_deletion_job json disk 3 (job ∷ []) paths).1
process-AllGone_example =
    process-AllGone json disk disk-Removes 3 (job ∷ []) paths job job_found refl completes

abbrev retried : BookDeletionResult
retried = record { job_id = some 3; state = completed; error_code = none }

retry_returns : (retry_deletion_job json disk 3 false (job ∷ []) paths).2 ≡ ok retried
unfolding retry_deletion_job retry_row process_deletion_job process_row clean_up for_each settle_job
    find_job update_job delete_job decode_deletion_manifest decode_fields check_count has_keys
    only_known paths_in get_field valid_manifest_relative_path is_relative_path split_slash
    ends_slash has_double_slash place_of join_manifest_path validate_content_path
    validate_tree_under remove_tree_under unlink_file check_inside check_parts check_descendants
    is_reparse_point relative_to is_parent is_outside same_place same_part walk follow
retry_returns = refl

job-Unique : Unique (job ∷ [])
unfolding find_job
job-Unique = (refl, tt)

retry-Reports_example :
    Reports json disk 3 (retry_deletion_job json disk 3 false (job ∷ []) paths).0 retried
retry-Reports_example =
    retry-Reports json disk 3 false (job ∷ []) paths retried job-Unique retry_returns

abbrev book : BookRow
book = record { id = 1; title = "One"; site = "s" }

abbrev catalog : Catalog
catalog = record {
  books = book ∷ [];
  chapters = [];
  logs = 1 ∷ [];
  audits = [];
  jobs = job ∷ [];
  last_job_id = 3;
}

abbrev build : BookRow → Catalog → Result Fault String
build b c = ok "{}"

new_id : find_job 4 (job ∷ []) ≡ none
unfolding find_job
new_id = refl

delete_book-Deleted_example :
    ((e : Fault) × (delete_book json disk build 1 catalog paths ≡ (catalog, paths, err e)))
    ⊎ ((r : BookDeletionResult) × ((delete_book json disk build 1 catalog paths).2 ≡ ok r)
        × Deleted json disk build 1 catalog (delete_book json disk build 1 catalog paths).0 r)
delete_book-Deleted_example = delete_book-Deleted json disk build 1 catalog paths job-Unique new_id
