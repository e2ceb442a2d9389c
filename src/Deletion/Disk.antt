-- ===== src/Deletion/Disk.antt =====
-- `_join_manifest_path`, `_validate_content_path`, `_is_reparse_point`, `validate_tree_under` and
-- `remove_tree_under` of storage.py, over what the operating system answers and does.
use novel_crawler.Prelude.{
  String, Bool, true, false, not, ◌&&◌, ◌||◌, List, [], ◌∷◌, ◌++◌, ◌=?◌, Option, none, some, codes,
  if◌then◌else◌, Result, ok, err, ◌>>=◌, ◌>>◌, raise_if, or_raise,
}
use novel_crawler.Deletion.Paths.{Part, split_slash, walk, valid_manifest_relative_path}
use novel_crawler.Deletion.Manifest.{Fault, value_error}

-- An absolute path without `.` and `..`: its parts, the last one first.
abbrev pub Place : Type 0
Place = List Part

-- `contents` or `cache` below the data directory.
pub data Root : Type 0 where
  contents cache : Root

-- The operating system: what Path, stat and shutil answer in a state of the files, and what becomes
-- of the files. Every call may raise.
pub record Disk (F : Type 0) : Type 0 where
  -- `self.data_dir`, absolute
  pub data_dir : Place
  -- `Path.resolve(strict=False)`
  pub resolve : Place → F → Result Fault Place
  -- `Path.stat(follow_symlinks=False)`: nothing there, or whether the attributes name a reparse point
  pub stat : Place → F → Result Fault (Option Bool)
  pub is_symlink : Place → F → Result Fault Bool
  pub is_junction : Place → F → Result Fault Bool
  pub exists : Place → F → Result Fault Bool
  pub is_file : Place → F → Result Fault Bool
  pub is_dir : Place → F → Result Fault Bool
  -- `Path.rglob("*")`
  pub descendants : Place → F → Result Fault (List Place)
  pub unlink : Place → F → F × Result Fault Unit
  -- `shutil.rmtree`
  pub rmtree : Place → F → F × Result Fault Unit

abbrev pub root_name : Root → Part
root_name contents = codes "contents"
root_name cache = codes "cache"

unfoldable pub same_part : Part → Part → Bool
same_part [] [] = true
same_part [] (d ∷ q) = false
same_part (c ∷ p) [] = false
same_part (c ∷ p) (d ∷ q) = c =? d && same_part p q

unfoldable pub same_place : Place → Place → Bool
unfolding same_part
same_place [] [] = true
same_place [] (q ∷ there) = false
same_place (p ∷ here) [] = false
same_place (p ∷ here) (q ∷ there) = same_part p q && same_place here there

-- `there.relative_to(root).parts`, the first one first; `none` where it raises.
abbrev pub add_part : Part → Option (List Part) → Option (List Part)
add_part p none = none
add_part p (some parts) = some (parts ++ (p ∷ []))

unfoldable pub relative_to : Place → Place → Option (List Part)
unfolding same_place
relative_to root [] = if same_place root [] then some [] else none
relative_to root (p ∷ there) =
    let rest = relative_to root there in
    if same_place root (p ∷ there) then some [] else add_part p rest

-- `root in there.parents`
unfoldable pub is_parent : Place → Place → Bool
unfolding same_place
is_parent root [] = false
is_parent root (p ∷ there) = let rest = is_parent root there in same_place root there || rest

-- `there == root or root not in there.parents`
unfoldable pub is_outside : Place → Place → Bool
unfolding same_place is_parent
is_outside root there = same_place there root || not (is_parent root there)

module _ {F : Type 0} (disk : Disk F) where
  abbrev pub root_place : Root → Place
  root_place r = root_name r ∷ disk.data_dir

  -- `root.joinpath(*PurePosixPath(value).parts)`
  unfoldable pub place_of : Root → String → Place
  place_of r value = walk (root_place r) (split_slash (codes value))

  -- `_join_manifest_path`
  unfoldable pub join_manifest_path : Root → String → Result Fault Place
  unfolding place_of
  join_manifest_path r value = do
    raise_if (not (valid_manifest_relative_path value)) (value_error "deletion_manifest_invalid")
    ok (place_of r value)

  abbrev pub reparse_of : Place → F → Option Bool → Result Fault Bool
  reparse_of place f none = ok false
  reparse_of place f (some attribute) = do
    link ← disk.is_symlink place f
    junction ← disk.is_junction place f
    ok (link || (junction || attribute))

  -- `_is_reparse_point`
  unfoldable pub is_reparse_point : Place → F → Result Fault Bool
  is_reparse_point place f = do info ← disk.stat place f; reparse_of place f info

  abbrev pub no_reparse_point : String → Place → F → Result Fault Unit
  no_reparse_point text place f = do
    reparse ← is_reparse_point place f
    raise_if reparse (value_error text)

  -- `for part in relative.parts: current /= part; ...`
  unfoldable pub check_parts : String → Place → List Part → F → Result Fault Unit
  unfolding is_reparse_point
  check_parts text current [] f = ok tt
  check_parts text current (part ∷ parts) f = do
    no_reparse_point text (part ∷ current) f
    check_parts text (part ∷ current) parts f

  -- `for descendant in target_absolute.rglob("*")`
  unfoldable pub check_descendants : List Place → F → Result Fault Unit
  unfolding is_reparse_point
  check_descendants [] f = ok tt
  check_descendants (place ∷ places) f = do
    no_reparse_point "delete_path_reparse_point" place f
    check_descendants places f

  -- Where a path is, by its text and by its links.
  unfoldable pub check_inside : String → Root → Place → F → Result Fault (List Part)
  unfolding relative_to is_outside
  check_inside text r place f = do
    relative ← or_raise (relative_to (root_place r) place) (value_error text)
    root_resolved ← disk.resolve (root_place r) f
    resolved ← disk.resolve place f
    raise_if (is_outside root_resolved resolved) (value_error text)
    ok relative

  -- `_validate_content_path` of an absolute path
  unfoldable pub validate_content_path : Place → F → Result Fault Place
  unfolding check_inside check_parts
  validate_content_path place f = do
    relative ← check_inside "content_path_outside_root" contents place f
    check_parts "content_path_reparse_point" (root_place contents) relative f
    present ← disk.exists place f
    regular ← if present then disk.is_file place f else ok true
    raise_if (not regular) (value_error "content_path_not_file")
    ok place

  abbrev pub check_directory : Place → F → Bool → Result Fault Unit
  check_directory place f false = ok tt
  check_directory place f true = do
    directory ← disk.is_dir place f
    places ← if directory then disk.descendants place f else ok []
    check_descendants places f

  -- `validate_tree_under`
  unfoldable pub validate_tree_under : Root → Place → F → Result Fault Unit
  unfolding check_inside check_parts check_descendants is_reparse_point
  validate_tree_under r place f = do
    relative ← check_inside "delete_path_outside_root" r place f
    no_reparse_point "delete_path_reparse_point" (root_place r) f
    check_parts "delete_path_reparse_point" (root_place r) relative f
    present ← disk.exists place f
    check_directory place f present

  abbrev pub remove_by_kind : Place → F → Result Fault Bool → F × Result Fault Unit
  remove_by_kind place f (err e) = (f, err e)
  remove_by_kind place f (ok directory) =
      if directory then disk.rmtree place f else disk.unlink place f

  abbrev pub remove_present : Place → F → Result Fault Bool → F × Result Fault Unit
  remove_present place f (err e) = (f, err e)
  remove_present place f (ok present) =
      if present then remove_by_kind place f (disk.is_dir place f) else (f, ok tt)

  abbrev pub remove_validated : Place → F → Result Fault Unit → F × Result Fault Unit
  remove_validated place f (err e) = (f, err e)
  remove_validated place f (ok u) = remove_present place f (disk.exists place f)

  -- `remove_tree_under`
  unfoldable pub remove_tree_under : Root → Place → F → F × Result Fault Unit
  unfolding validate_tree_under
  remove_tree_under r place f = remove_validated place f (validate_tree_under r place f)

  abbrev pub unlink_present : Place → F → Result Fault Bool → F × Result Fault Unit
  unlink_present place f (err e) = (f, err e)
  unlink_present place f (ok present) = if present then disk.unlink place f else (f, ok tt)

  -- `if path.exists(): path.unlink()`
  unfoldable pub unlink_file : Place → F → F × Result Fault Unit
  unlink_file place f = unlink_present place f (disk.exists place f)
