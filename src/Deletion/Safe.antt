-- ===== src/Deletion/Safe.antt =====
-- What a manifest that was decoded may list.
use novel_crawler.Prelude.{
  ◌+◌, ◌≤◌, String, ◌==◌, eq_iff, Bool, true, not, ◌&&◌, ◌||◌, List, [], ◌∷◌, Option, some, length,
  all, any, ltb, ok, ◌≡◌, refl, arith, Bool-cases, Option-cases, inl, inr, err≢ok, ok_inj, some_inj,
  codes,
}
use novel_crawler.Task.Values.{Value, Items, Fields}
use novel_crawler.Batch.Payload.{get_field}
use novel_crawler.Deletion.Paths.{
  valid_manifest_relative_path, Part, walk, split_slash, IsBelow, path-IsBelow,
}
use novel_crawler.Deletion.Manifest.{
  Json, Manifest, max_deletion_paths, max_deletion_manifest_bytes, path_of, paths_in, paths_of,
  fields_of, has_keys, is_one_value, decode_deletion_manifest, decode_fields, check_count,
}

abbrev pub are_paths : List String → Bool
are_paths ps = all valid_manifest_relative_path ps

path_of_valid :
    (v : Value) (p : String) → path_of v ≡ some p → valid_manifest_relative_path p ≡ true
path_of_valid (Value.text item) p h =
    elim (Bool-cases (not (ltb 4096 (length (codes item))) && valid_manifest_relative_path item)) [
      | inr bad ↦ cc
      | inl good ↦ let same : item ≡ p = some_inj (rw good at h) in rw (← same) (ground arith)
    ]
path_of_valid _ p h = cc

paths_in_valid : (items : Items) (ps : List String) → paths_in items ≡ some ps → are_paths ps ≡ true
unfolding paths_in
paths_in_valid Items.nil ps h = rw (← some_inj h) refl
paths_in_valid (Items.item v vs) ps h = elim (Option-cases (path_of v)) [
  | inl bad ↦ cc
  | inr (q, first) ↦ elim (Option-cases (paths_in vs)) [
    | inl bad ↦ cc
    | inr (qs, rest) ↦
        let same : (q ∷ qs) ≡ ps = some_inj (rw (first, rest) at h) in
        rw (← same) (rw (path_of_valid v q first, paths_in_valid vs qs rest) refl)
  ]
]

paths_of_valid : (v : Option Value) (ps : List String) → paths_of v ≡ some ps → are_paths ps ≡ true
paths_of_valid (some (Value.array items)) ps h = paths_in_valid items ps h
paths_of_valid _ ps h = cc

listed_valid :
    (value : String) (ps : List String)
    → are_paths ps ≡ true
    → any (λ p. p == value) ps ≡ true
    → valid_manifest_relative_path value ≡ true
listed_valid value [] good h = cc
listed_valid value (p ∷ ps) good h = elim (Bool-cases (p == value)) [
  | inr other ↦ listed_valid value ps (ground arith) (rw other at h)
  | inl here ↦ let same : p ≡ value = (eq_iff p value).0 here in rw (← same) (ground arith)
]

-- A path that one of the three lists holds.
abbrev pub is_listed : String → Manifest → Bool
is_listed value m =
    any (λ p. p == value) m.cache_trees
    || (any (λ p. p == value) m.content_files || any (λ p. p == value) m.content_trees)

-- The lists of a decoded manifest.
record IsSafe (m : Manifest) : Type 0 where
  caches : are_paths m.cache_trees ≡ true
  files : are_paths m.content_files ≡ true
  trees : are_paths m.content_trees ≡ true
  few :
      length m.cache_trees + (length m.content_files + length m.content_trees) ≤ max_deletion_paths

value_valid :
    (value : String) (m : Manifest)
    → IsSafe m
    → is_listed value m ≡ true
    → valid_manifest_relative_path value ≡ true
value_valid value m safe listed = elim (Bool-cases (any (λ p. p == value) m.cache_trees)) [
  | inl here ↦ listed_valid value m.cache_trees safe.caches here
  | inr other ↦ elim (Bool-cases (any (λ p. p == value) m.content_files)) [
    | inl here ↦ listed_valid value m.content_files safe.files here
    | inr rest ↦ listed_valid value m.content_trees safe.trees (rw (other, rest) at listed)
  ]
]

check_count-IsSafe :
    (caches files trees : List String) (m : Manifest)
    → are_paths caches ≡ true
    → are_paths files ≡ true
    → are_paths trees ≡ true
    → check_count caches files trees ≡ ok m
    → IsSafe m
unfolding check_count
check_count-IsSafe caches files trees m c f t h =
    elim (Bool-cases (ltb max_deletion_paths (length caches + (length files + length trees)))) [
      | inl many ↦ absurd (err≢ok (rw many at h))
      | inr few ↦
          let same : Path Manifest
              (record { cache_trees = caches; content_files = files; content_trees = trees }) m =
            ok_inj (rw few at h) in
          rw (← same) (record { caches = c; files = f; trees = t; few = ground arith })
    ]

fields-IsSafe :
    (json : Json) (fields : Fields) (m : Manifest) → decode_fields json fields ≡ ok m → IsSafe m
unfolding decode_fields
fields-IsSafe json fields m h = elim (Bool-cases (has_keys fields)) [
  | inr bad ↦ absurd (err≢ok (rw bad at h))
  | inl keys ↦ elim (Bool-cases (is_one_value json.is_one (get_field "version" fields))) [
    | inr bad ↦ absurd (err≢ok (rw (keys, bad) at h))
    | inl one ↦ elim (Option-cases (paths_of (get_field "cache_trees" fields))) [
      | inl bad ↦ absurd (err≢ok (rw (keys, one, bad) at h))
      | inr (caches, c) ↦ elim (Option-cases (paths_of (get_field "content_files" fields))) [
        | inl bad ↦ absurd (err≢ok (rw (keys, one, c, bad) at h))
        | inr (files, f) ↦ elim (Option-cases (paths_of (get_field "content_trees" fields))) [
          | inl bad ↦ absurd (err≢ok (rw (keys, one, c, f, bad) at h))
          | inr (trees, t) ↦
              check_count-IsSafe caches files trees m
                (paths_of_valid (get_field "cache_trees" fields) caches c)
                (paths_of_valid (get_field "content_files" fields) files f)
                (paths_of_valid (get_field "content_trees" fields) trees t)
                (rw (keys, one, c, f, t) at h)
        ]
      ]
    ]
  ]
]

decode-IsSafe :
    (json : Json) (encoded : String) (m : Manifest)
    → decode_deletion_manifest json encoded ≡ ok m
    → IsSafe m
unfolding decode_deletion_manifest
decode-IsSafe json encoded m h =
    elim (Bool-cases (ltb max_deletion_manifest_bytes (json.utf8_length encoded))) [
      | inl large ↦ absurd (err≢ok (rw large at h))
      | inr small ↦ elim (Option-cases (fields_of (json.loads encoded))) [
        | inl bad ↦ absurd (err≢ok (rw (small, bad) at h))
        | inr (fields, found) ↦ fields-IsSafe json fields m (rw (small, found) at h)
      ]
    ]

-- A manifest that was decoded lists at most 10,000 paths, and each of them leads from any directory to
-- a place strictly below it: no `..`, no absolute path and no empty part gets through.
pub decode-IsBelow :
    (json : Json) (encoded : String) (m : Manifest)
    → decode_deletion_manifest json encoded ≡ ok m
    → (length m.cache_trees + (length m.content_files + length m.content_trees)
        ≤ max_deletion_paths)
      × ((here : List Part) (value : String)
          → is_listed value m ≡ true
          → IsBelow here (walk here (split_slash (codes value))))
decode-IsBelow json encoded m h =
    let safe = decode-IsSafe json encoded m h in
    (safe.few, λ here value listed. path-IsBelow here value (value_valid value m safe listed))
