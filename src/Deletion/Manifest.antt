-- ===== src/Deletion/Manifest.antt =====
-- `_decode_deletion_manifest` of storage.py: the text of a manifest, and the paths that it lists.
use novel_crawler.Prelude.{
  ℕ, ◌+◌, String, ◌==◌, codes, Bool, true, false, not, ◌&&◌, ◌||◌, List, [], ◌∷◌, Option, none,
  some, is_some, length, ltb, if◌then◌else◌, Result, ok, ◌>>=◌, ◌>>◌, raise_if, or_raise,
}
use novel_crawler.Task.Values.{Value, Items, Fields}
use novel_crawler.Batch.Payload.{get_field}
use novel_crawler.Deletion.Paths.{valid_manifest_relative_path}

-- An exception: an `OSError`, a `ValueError` with its text, or any other `Exception`.
pub data Fault : Type 0 where
  os_error other_error : Fault
  value_error : String → Fault

-- Python's json and the UTF-8 encoding: `json.loads`, `none` where it raises, the number texts that
-- are equal to 1, and the length of the encoded text.
pub record Json : Type 0 where
  pub loads : String → Option Value
  pub is_one : String → Bool
  pub utf8_length : String → ℕ

-- `_MAX_DELETION_PATHS` and `_MAX_DELETION_MANIFEST_BYTES`
abbrev pub max_deletion_paths : ℕ
max_deletion_paths = 10000

abbrev pub max_deletion_manifest_bytes : ℕ
max_deletion_manifest_bytes = 1048576

pub record Manifest : Type 0 where
  pub cache_trees : List String
  pub content_files : List String
  pub content_trees : List String

abbrev pub is_known : String → Bool
is_known key =
    (key == "cache_trees" || key == "content_files") || (key == "content_trees" || key == "version")

unfoldable pub only_known : Fields → Bool
only_known Fields.end = true
only_known (Fields.field key v fs) = is_known key && only_known fs

-- `set(value) == {...}`
unfoldable pub has_keys : Fields → Bool
unfolding only_known get_field
has_keys fs =
    only_known fs
    && ((is_some (get_field "cache_trees" fs) && is_some (get_field "content_files" fs))
        && (is_some (get_field "content_trees" fs) && is_some (get_field "version" fs)))

-- An item of a list: a text that is not too long, and a path.
abbrev pub path_of : Value → Option String
path_of (Value.text item) =
    if not (ltb 4096 (length (codes item))) && valid_manifest_relative_path item
    then some item
    else none
path_of _ = none

abbrev pub cons_some : Option String → Option (List String) → Option (List String)
cons_some (some p) (some ps) = some (p ∷ ps)
cons_some _ _ = none

unfoldable pub paths_in : Items → Option (List String)
unfolding valid_manifest_relative_path
paths_in Items.nil = some []
paths_in (Items.item v vs) = cons_some (path_of v) (paths_in vs)

abbrev pub paths_of : Option Value → Option (List String)
paths_of (some (Value.array items)) = paths_in items
paths_of _ = none

abbrev pub is_one_value : (String → Bool) → Option Value → Bool
is_one_value is_one (some (Value.number s)) = is_one s
is_one_value is_one (some (Value.bool b)) = b
is_one_value is_one _ = false

abbrev pub fields_of : Option Value → Option Fields
fields_of (some (Value.object fs)) = some fs
fields_of _ = none

-- The bound on the number of paths.
unfoldable pub check_count : List String → List String → List String → Result Fault Manifest
check_count cache_trees content_files content_trees = do
  raise_if
      (ltb max_deletion_paths (length cache_trees + (length content_files + length content_trees)))
      (value_error "deletion_manifest_too_many_paths")
  ok (record {
    cache_trees = cache_trees;
    content_files = content_files;
    content_trees = content_trees;
  })

-- The tests on the dict.
unfoldable pub decode_fields : Json → Fields → Result Fault Manifest
unfolding has_keys paths_in get_field check_count
decode_fields json fields = do
  raise_if (not (has_keys fields)) (value_error "deletion_manifest_invalid")
  raise_if (not (is_one_value json.is_one (get_field "version" fields)))
      (value_error "deletion_manifest_invalid")
  cache_trees ←
      or_raise (paths_of (get_field "cache_trees" fields)) (value_error "deletion_manifest_invalid")
  content_files ←
      or_raise (paths_of (get_field "content_files" fields))
        (value_error "deletion_manifest_invalid")
  content_trees ←
      or_raise (paths_of (get_field "content_trees" fields))
        (value_error "deletion_manifest_invalid")
  check_count cache_trees content_files content_trees

unfoldable pub decode_deletion_manifest : Json → String → Result Fault Manifest
unfolding decode_fields
decode_deletion_manifest json encoded = do
  raise_if (ltb max_deletion_manifest_bytes (json.utf8_length encoded))
      (value_error "deletion_manifest_too_large")
  fields ← or_raise (fields_of (json.loads encoded)) (value_error "deletion_manifest_invalid")
  decode_fields json fields
