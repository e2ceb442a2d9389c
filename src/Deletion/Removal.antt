-- ===== src/Deletion/Removal.antt =====
-- What `check_and_unlink` and `remove_tree` leave of a path, by what the operating system promises.
use novel_crawler.Prelude.{
  String, Bool, true, false, not, ◌≡◌, refl, arith, Bool-cases, Result-cases, inl, inr, Result, ok,
  err, err≢ok, ok_inj, ◌∙◌, ◌>>=◌, ◌>>◌, if◌then◌else◌,
}
use novel_crawler.Deletion.Manifest.{Fault, Json}
use novel_crawler.Deletion.Disk.{
  Place, Root, contents, Disk, root_place, check_inside, check_parts, place_of, join_manifest_path,
  validate_content_path, validate_tree_under, remove_by_kind, remove_tree_under, unlink_file,
}
use novel_crawler.Deletion.Paths.{valid_manifest_relative_path}
use novel_crawler.Deletion.Process.{find_file, check_and_unlink, remove_tree}

-- What a system promises of `unlink` and `shutil.rmtree`: a call that returns has removed its path, and
-- none brings a path back.
pub record Removes {F : Type 0} (disk : Disk F) : Type 0 where
  pub unlinked :
      (p : Place) (f : F)
      → (disk.unlink p f).1 ≡ ok tt
      → disk.exists p (disk.unlink p f).0 ≡ ok false
  pub unlink_keeps :
      (p : Place) (f : F) (q : Place)
      → disk.exists q f ≡ ok false
      → disk.exists q (disk.unlink p f).0 ≡ ok false
  pub removed :
      (p : Place) (f : F)
      → (disk.rmtree p f).1 ≡ ok tt
      → disk.exists p (disk.rmtree p f).0 ≡ ok false
  pub rmtree_keeps :
      (p : Place) (f : F) (q : Place)
      → disk.exists q f ≡ ok false
      → disk.exists q (disk.rmtree p f).0 ≡ ok false

abbrev pub is_absent : Result Fault Bool → Bool
is_absent (ok present) = not present
is_absent (err e) = false

pub absent_exactly : (answer : Result Fault Bool) → is_absent answer ≡ true → answer ≡ ok false
absent_exactly (ok present) h = ground arith
absent_exactly (err e) h = cc

bind_returns :
    {A B : Type 0} (m : Result Fault A) (next : A → Result Fault B) {b : B}
    → (m >>= next) ≡ ok b
    → (a : A) × (next a ≡ ok b)
bind_returns (ok a) next h = (a, h)
bind_returns (err e) next h = absurd (err≢ok h)

then_returns :
    {A B : Type 0} (m : Result Fault A) (next : Result Fault B) {b : B}
    → (m >> next) ≡ ok b
    → next ≡ ok b
then_returns (ok a) next h = h
then_returns (err e) next h = absurd (err≢ok h)

module _ {F : Type 0} (json : Json) (disk : Disk F) where
  -- The path of a manifest does not exist below its root.
  abbrev pub is_gone : Root → String → F → Bool
  is_gone r value f = is_absent (disk.exists (place_of disk r value) f)

  pub join_ok :
      (r : Root) (value : String) (place : Place)
      → join_manifest_path disk r value ≡ ok place
      → place_of disk r value ≡ place
  unfolding join_manifest_path
  join_ok r value place h = elim (Bool-cases (valid_manifest_relative_path value)) [
    | inr bad ↦ absurd (err≢ok (rw bad at h))
    | inl good ↦ ok_inj (rw good at h)
  ]

  -- `_validate_content_path` returns its path.
  validate_ok :
      (path : Place) (f : F) (place : Place)
      → validate_content_path disk path f ≡ ok place
      → path ≡ place
  unfolding validate_content_path
  validate_ok path f place h =
      let (relative, h1) =
        bind_returns (check_inside disk "content_path_outside_root" contents path f) _ h in
      let h2 =
        then_returns
          (check_parts disk "content_path_reparse_point" (root_place disk contents) relative f) _
          h1 in
      let (present, h3) = bind_returns (disk.exists path f) _ h2 in
      let (regular, h4) = bind_returns (if present then disk.is_file path f else ok true) _ h3 in
      elim (Bool-cases regular) [
        | inl plain ↦ ok_inj (rw plain at h4)
        | inr other ↦ absurd (err≢ok (rw other at h4))
      ]

  find_ok :
      (value : String) (f : F) (place : Place)
      → find_file json disk value f ≡ ok place
      → place_of disk contents value ≡ place
  find_ok value f place h = elim (Result-cases (join_manifest_path disk contents value)) [
    | inr (e, bad) ↦ absurd (err≢ok (rw bad at h))
    | inl (path, joined) ↦
        join_ok contents value path joined ∙ validate_ok path f place (rw joined at h)
  ]

  module _ (laws : Removes disk) where
    unlink_file_clears :
        (p : Place) (f : F)
        → (unlink_file disk p f).1 ≡ ok tt
        → disk.exists p (unlink_file disk p f).0 ≡ ok false
    unfolding unlink_file
    unlink_file_clears p f h = elim (Result-cases (disk.exists p f)) [
      | inr (e, fails) ↦ absurd (err≢ok (rw fails at h))
      | inl (present, asked) ↦ elim (Bool-cases present) [
        | inr gone ↦ rw asked (rw gone (rw asked (rw gone refl)))
        | inl there ↦ rw asked (rw there (laws.unlinked p f (rw there at (rw asked at h))))
      ]
    ]

    unlink_file_keeps :
        (p : Place) (f : F) (q : Place)
        → disk.exists q f ≡ ok false
        → disk.exists q (unlink_file disk p f).0 ≡ ok false
    unfolding unlink_file
    unlink_file_keeps p f q h = elim (Result-cases (disk.exists p f)) [
      | inr (e, fails) ↦ rw fails h
      | inl (present, asked) ↦ elim (Bool-cases present) [
        | inr gone ↦ rw asked (rw gone h)
        | inl there ↦ rw asked (rw there (laws.unlink_keeps p f q h))
      ]
    ]

    by_kind_clears :
        (p : Place) (f : F) (kind : Result Fault Bool)
        → (remove_by_kind disk p f kind).1 ≡ ok tt
        → disk.exists p (remove_by_kind disk p f kind).0 ≡ ok false
    by_kind_clears p f (err e) h = absurd (err≢ok h)
    by_kind_clears p f (ok true) h = laws.removed p f h
    by_kind_clears p f (ok false) h = laws.unlinked p f h

    by_kind_keeps :
        (p : Place) (f : F) (kind : Result Fault Bool) (q : Place)
        → disk.exists q f ≡ ok false
        → disk.exists q (remove_by_kind disk p f kind).0 ≡ ok false
    by_kind_keeps p f (err e) q h = h
    by_kind_keeps p f (ok true) q h = laws.rmtree_keeps p f q h
    by_kind_keeps p f (ok false) q h = laws.unlink_keeps p f q h

    remove_tree_under_clears :
        (r : Root) (p : Place) (f : F)
        → (remove_tree_under disk r p f).1 ≡ ok tt
        → disk.exists p (remove_tree_under disk r p f).0 ≡ ok false
    unfolding remove_tree_under
    remove_tree_under_clears r p f h = elim (Result-cases (validate_tree_under disk r p f)) [
      | inr (e, unsafe) ↦ absurd (err≢ok (rw unsafe at h))
      | inl (u, safe) ↦ elim (Result-cases (disk.exists p f)) [
        | inr (e, fails) ↦ absurd (err≢ok (rw (safe, fails) at h))
        | inl (present, asked) ↦ elim (Bool-cases present) [
          | inr gone ↦ rw (safe, asked) (rw gone (rw asked (rw gone refl)))
          | inl there ↦
              rw (safe, asked)
                (rw there
                  (by_kind_clears p f (disk.is_dir p f) (rw there at (rw (safe, asked) at h))))
        ]
      ]
    ]

    remove_tree_under_keeps :
        (r : Root) (p : Place) (f : F) (q : Place)
        → disk.exists q f ≡ ok false
        → disk.exists q (remove_tree_under disk r p f).0 ≡ ok false
    unfolding remove_tree_under
    remove_tree_under_keeps r p f q h = elim (Result-cases (validate_tree_under disk r p f)) [
      | inr (e, unsafe) ↦ rw unsafe h
      | inl (u, safe) ↦ elim (Result-cases (disk.exists p f)) [
        | inr (e, fails) ↦ rw (safe, fails) h
        | inl (present, asked) ↦ elim (Bool-cases present) [
          | inr gone ↦ rw (safe, asked) (rw gone h)
          | inl there ↦ rw (safe, asked) (rw there (by_kind_keeps p f (disk.is_dir p f) q h))
        ]
      ]
    ]

    pub unlinks :
        (value : String) (f : F)
        → (check_and_unlink json disk value f).1 ≡ ok tt
        → is_gone contents value (check_and_unlink json disk value f).0 ≡ true
    unlinks value f h = elim (Result-cases (find_file json disk value f)) [
      | inr (e, bad) ↦ absurd (err≢ok (rw bad at h))
      | inl (place, there) ↦
          rw there (
            rw (find_ok value f place there) (rw (unlink_file_clears place f (rw there at h)) refl))
    ]

    pub unlink_leaves :
        (value : String) (f : F) (r : Root) (q : String)
        → is_gone r q f ≡ true
        → is_gone r q (check_and_unlink json disk value f).0 ≡ true
    unlink_leaves value f r q h = elim (Result-cases (find_file json disk value f)) [
      | inr (e, bad) ↦ rw bad h
      | inl (place, there) ↦ rw there (
          rw
            (unlink_file_keeps place f (place_of disk r q)
              (absent_exactly (disk.exists (place_of disk r q) f) h))
            refl)
    ]

    pub removes :
        (r : Root) (value : String) (f : F)
        → (remove_tree json disk r value f).1 ≡ ok tt
        → is_gone r value (remove_tree json disk r value f).0 ≡ true
    removes r value f h = elim (Result-cases (join_manifest_path disk r value)) [
      | inr (e, bad) ↦ absurd (err≢ok (rw bad at h))
      | inl (place, there) ↦ rw there (
          rw (join_ok r value place there)
            (rw (remove_tree_under_clears r place f (rw there at h)) refl))
    ]

    pub remove_leaves :
        (r' : Root) (value : String) (f : F) (r : Root) (q : String)
        → is_gone r q f ≡ true
        → is_gone r q (remove_tree json disk r' value f).0 ≡ true
    remove_leaves r' value f r q h = elim (Result-cases (join_manifest_path disk r' value)) [
      | inr (e, bad) ↦ rw bad h
      | inl (place, there) ↦ rw there (
          rw
            (remove_tree_under_keeps r' place f (place_of disk r q)
              (absent_exactly (disk.exists (place_of disk r q) f) h))
            refl)
    ]
