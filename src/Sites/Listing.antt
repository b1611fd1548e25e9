-- ===== src/Sites/Listing.antt =====
-- `ListSiteFiles` of internal/service/sites/service.go: the entries of a directory of a site, the
-- directories first. os.ReadDir and what it tells of an entry are parameters.
pub mod Order
use nusantara_panel.Base.{
  ◌==◌, ℕ, ltb, ℤ, pos, negsuc, Text, codes, [], ◌∷◌, List, Bool, true, false, Option, none, some,
  Result, ok, err, text_eq, take, not, if◌then◌else◌, ◌||◌, ◌&&◌, Unicode, to_lower, leb, length,
}
use nusantara_panel.Store.{Site, Time, not_found}
use nusantara_panel.Store.FileDb.Snapshot.{Repository}
use nusantara_panel.Store.FileDb.Methods.{get_site_by_id}
use nusantara_panel.Sites.{Error, store_error, invalid_path, os_fails}
use nusantara_panel.Sites.Paths.{join_path, is_within_root, normalize_relative_path}
use nusantara_panel.Sites.Files.{OsError, os_text, not_exist, permission, other}

pub record SiteFileEntry : Type 0 where
  pub name : Text
  pub path : Text
  pub type : Text
  pub size : ℕ
  pub mod_time : Time

-- An entry of a directory: its size and the time of its change, if they can be read.
pub record DirEntry : Type 0 where
  pub name : Text
  pub is_dir : Bool
  pub info : Option (ℕ × Time)

-- The order of texts by their bytes
unfoldable pub text_lt : Text → Text → Bool
text_lt s [] = false
text_lt [] (b ∷ t) = true
text_lt (a ∷ s) (b ∷ t) = let rest = text_lt s t in if a == b then rest else ltb a b

-- The limit that is used for one that is given.
unfoldable pub list_limit : ℤ → ℕ
list_limit (pos n) = if leb n 0 || ltb 500 n then 200 else n
list_limit (negsuc n) = 200

abbrev unless_missing : OsError → Error
unless_missing (not_exist t) = store_error not_found
unless_missing (permission t) = os_fails (codes "read directory") t
unless_missing (other t) = os_fails (codes "read directory") t

-- What is told of an entry of the directory `rel_dir`, with its size and the time of its change.
abbrev pub item_read : Text → DirEntry → ℕ → Time → SiteFileEntry
item_read rel_dir entry size mod_time = record {
  name = entry.name;
  path = if text_eq rel_dir [] then entry.name else join_path rel_dir entry.name;
  type = if entry.is_dir then codes "dir" else codes "file";
  size = if entry.is_dir then 0 else size;
  mod_time = mod_time;
}

-- The same, unless these cannot be read.
abbrev pub item_of : Text → DirEntry → Option SiteFileEntry
item_of rel_dir entry = elim entry.info [
  | none ↦ none
  | some (size, mod_time) ↦ some (item_read rel_dir entry size mod_time)
]

abbrev pub with_item : Option SiteFileEntry → List SiteFileEntry → List SiteFileEntry
with_item none items = items
with_item (some item) items = item ∷ items

unfoldable pub items_of : Text → List DirEntry → List SiteFileEntry
items_of rel_dir [] = []
items_of rel_dir (entry ∷ entries) = with_item (item_of rel_dir entry) (items_of rel_dir entries)

module _ ⦃u : Unicode⦄ where
  -- Whether an entry is sorted before another one.
  unfoldable pub is_before : DirEntry → DirEntry → Bool
  unfolding text_lt
  is_before a b =
      if a.is_dir && not b.is_dir
      then true
      else if b.is_dir && not a.is_dir
      then false
      else text_lt (to_lower a.name) (to_lower b.name)

  unfoldable pub insert_entry : DirEntry → List DirEntry → List DirEntry
  insert_entry x [] = x ∷ []
  insert_entry x (y ∷ ys) =
      let rest = insert_entry x ys in if is_before y x then y ∷ rest else x ∷ y ∷ ys

  -- sort.Slice: it may put entries that are alike in any order; this keeps them as they were.
  unfoldable pub sort_entries : List DirEntry → List DirEntry
  unfolding insert_entry
  sort_entries [] = []
  sort_entries (x ∷ xs) = insert_entry x (sort_entries xs)

  -- The directory of a site that is asked for: the site, its path within the site and its full path.
  unfoldable pub located_dir : Text → Text → Repository → Result Error (Site × Text × Text)
  located_dir id dir r = elim (get_site_by_id id r) [
    | err e ↦ err (store_error e)
    | ok site ↦ elim (normalize_relative_path dir true) [
      | err e ↦ err e
      | ok rel_dir ↦
          let target_dir = join_path site.root_path rel_dir in
          if not (is_within_root site.root_path target_dir)
          then err invalid_path
          else ok (site, rel_dir, target_dir)
    ]
  ]

  abbrev pub listed :
      Site
      → Text
      → ℤ
      → Result OsError (List DirEntry)
      → Result Error (Site × Text × List SiteFileEntry)
  listed site rel_dir limit (err e) = err (unless_missing e)
  listed site rel_dir limit (ok entries) =
      ok (site, rel_dir, items_of rel_dir (take (list_limit limit) (sort_entries entries)))

  module _ {F : Type 0} (read_dir : Text → F → Result OsError (List DirEntry)) where
    unfoldable pub list_site_files :
        Text → Text → ℤ → Repository → F → Result Error (Site × Text × List SiteFileEntry)
    unfolding located_dir sort_entries list_limit items_of
    list_site_files id dir limit r f = elim (located_dir id dir r) [
      | err e ↦ err e
      | ok (site, rel_dir, target_dir) ↦ listed site rel_dir limit (read_dir target_dir f)
    ]
