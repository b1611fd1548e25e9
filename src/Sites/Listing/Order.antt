-- ===== src/Sites/Listing/Order.antt =====
-- What a listing of a directory of a site shows.
use mathlib.Core.List.{Perm}
use mathlib.Core.List.Perm
use nusantara_panel.Base.{
  ◌<◌, codes, ◌≢◌, some, ℕ, ◌⊎◌, none, ◌≡◌, ◌≤◌, ℤ, Text, [], ◌∷◌, List, true, false, Result, ok,
  take, Unicode, to_lower, length,
}
use nusantara_panel.Store.{Site}
use nusantara_panel.Store.FileDb.Snapshot.{Repository}
use nusantara_panel.Store.FileDb.Methods.{get_site_by_id}
use nusantara_panel.Sites.Paths.{join_path, is_within_root, normalize_relative_path}
use nusantara_panel.Sites.Files.{OsError}
use nusantara_panel.Sites.Listing.{Time, DirEntry, SiteFileEntry, is_before, list_limit}

module _ ⦃u : Unicode⦄ where
  -- No entry is sorted before the one in front of it.
  abbrev IsOrdered : List DirEntry → Type 0
  IsOrdered [] = Unit
  IsOrdered (x ∷ []) = Unit
  IsOrdered (x ∷ y ∷ ys) = (is_before y x ≡ false) × IsOrdered (y ∷ ys)

-- A text is less than another one by its bytes.
pub data IsLess : Text → Text → Type 0 where
  ends : {b : ℕ} {t : Text} → IsLess [] (b ∷ t)
  here : {a b : ℕ} {s t : Text} → a < b → IsLess (a ∷ s) (b ∷ t)
  after : {a : ℕ} {s t : Text} → IsLess s t → IsLess (a ∷ s) (a ∷ t)

module _ ⦃u : Unicode⦄ where
  -- An entry may stand behind another one: it is a file behind a directory, or they are of one kind
  -- and its name in lower case is not less by its bytes.
  abbrev pub MayFollow : DirEntry → DirEntry → Type 0
  MayFollow x y =
      ((x.is_dir ≡ true) × (y.is_dir ≡ false))
      ⊎ ((x.is_dir ≡ y.is_dir) × (¬ IsLess (to_lower y.name) (to_lower x.name)))

  abbrev pub AreInOrder : List DirEntry → Type 0
  AreInOrder [] = Unit
  AreInOrder (x ∷ []) = Unit
  AreInOrder (x ∷ y ∷ ys) = MayFollow x y × AreInOrder (y ∷ ys)

-- What is told of an entry that can be read: its name, its path from the root of the site, and, of
-- a file alone, its size.
pub record IsTold (rel_dir : Text) (entry : DirEntry) (size : ℕ) (mod_time : Time)
    (item : SiteFileEntry) : Type 0 where
  pub named : item.name ≡ entry.name
  pub placed :
      ((rel_dir ≡ []) × (item.path ≡ entry.name))
      ⊎ ((rel_dir ≢ []) × (item.path ≡ join_path rel_dir entry.name))
  pub sorted :
      ((entry.is_dir ≡ true) × (item.type ≡ codes "dir") × (item.size ≡ 0))
      ⊎ ((entry.is_dir ≡ false) × (item.type ≡ codes "file") × (item.size ≡ size))
  pub changed : item.mod_time ≡ mod_time

-- The items are those of the entries that can be read, in the order of the entries.
pub data AreTold (rel_dir : Text) : List DirEntry → List SiteFileEntry → Type 0 where
  nothing : AreTold rel_dir [] []
  unread :
      {entries : List DirEntry} {items : List SiteFileEntry}
      → (entry : DirEntry) → entry.info ≡ none
      → AreTold rel_dir entries items
      → AreTold rel_dir (entry ∷ entries) items
  told :
      {entries : List DirEntry} {items : List SiteFileEntry}
      → (entry : DirEntry) (size : ℕ) (mod_time : Time) (item : SiteFileEntry)
      → entry.info ≡ some (size, mod_time)
      → IsTold rel_dir entry size mod_time item
      → AreTold rel_dir entries items
      → AreTold rel_dir (entry ∷ entries) (item ∷ items)

module _ ⦃u : Unicode⦄ {F : Type 0} (read_dir : Text → F → Result OsError (List DirEntry))
    (id dir : Text) (limit : ℤ) (r : Repository) (f : F) where
  -- What a listing shows: the first of the entries of a directory within the root of a stored site,
  -- in order.
  pub record Listed (site : Site) (rel_dir : Text) (items : List SiteFileEntry) : Type 0 where
    pub entries : List DirEntry
    pub ordered : List DirEntry
    pub known : get_site_by_id id r ≡ ok site
    pub accepted : normalize_relative_path dir true ≡ ok rel_dir
    pub inside : is_within_root site.root_path (join_path site.root_path rel_dir) ≡ true
    pub read : read_dir (join_path site.root_path rel_dir) f ≡ ok entries
    pub same : Perm ordered entries
    pub in_order : AreInOrder ordered
    pub shown : AreTold rel_dir (take (list_limit limit) ordered) items
    pub few : length items ≤ 500
