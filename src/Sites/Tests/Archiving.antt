-- ===== src/Sites/Tests/Archiving.antt =====
-- The listing and the archive of a small site.
use nusantara_panel.Base.{
  to_lower, trim_space, ℕ, refl, Text, codes, [], ◌∷◌, ◌++◌, if◌then◌else◌, List, none, some,
  Result, ok, err, true, false, length, has_prefix, trim_prefix, ascii_tables,
}
use nusantara_panel.Base.Table.{Table, lookup, insert, delete}
use nusantara_panel.Store.FileDb.Tests.{blog}
use nusantara_panel.Store.FileDb.Methods.{get_site_by_id}
use nusantara_panel.Sites.Paths.{clean}
use nusantara_panel.Sites.Tests.{one_site}
use nusantara_panel.Sites.Files.{OsError, not_exist}
use nusantara_panel.Sites.Listing.{DirEntry, SiteFileEntry}
use nusantara_panel.Sites.Archive.{
  Archiver, Visit, regular, SiteContentBackupResult, backup_site_content,
}
use nusantara_panel.Sites.Archive.Names.{Tells}
use nusantara_panel.Sites.Archive.Archived.{Archived, backup_site_content-Archived}

abbrev below : Text → Table Text → List Visit
below root [] = []
below root ((path, content) ∷ rest) =
    if has_prefix path (root ++ codes "/")
    then record { current = path; found = ok regular } ∷ below root rest
    else below root rest

-- A machine whose writers of archives keep what is added.
abbrev archiver_of : {Z : Type 0} → Z → (Text → Z → Z) → Archiver (Table Text) Z
archiver_of start add = record {
  stat = λ path files. ok true;
  size = λ path files. elim (lookup path files) [
    | none ↦ err (not_exist path)
    | some text ↦ ok (length text)
  ];
  mkdir_all = λ path files. (ok tt, files);
  remove = λ path files. (ok tt, delete path files);
  rename = λ old new files. (
    ok tt,
    insert new (elim (lookup old files) [ none ↦ [] | some text ↦ text ]) (delete old files),
  );
  walk = below;
  rel = λ root path. ok (trim_prefix path (root ++ codes "/"));
  open_archive = λ path files. (ok start, insert path (codes "PK") files);
  add_folder = λ name z files. (ok (add name z), files);
  add_file = λ name path z files. (ok (add name z), files);
  close_archive = λ z files. (ok tt, files);
}

abbrev pub plain_archiver : Archiver (Table Text) Text
plain_archiver = archiver_of [] (λ name z. z ++ name)

abbrev listing_archiver : Archiver (Table Text) (List Text)
listing_archiver = archiver_of [] (λ name z. z ++ name ∷ [])

abbrev itself : List Text → List Text
itself names = names

told : Tells listing_archiver itself
told = record { folder_told = λ name z z' f f' h. cc; file_told = λ name path z z' f f' h. cc }

abbrev files : Table Text
files = (codes "/srv/b/a.css", codes "body") ∷ []

abbrev target : Text
target = codes "/b/sites/blog.id/site_content_blog.id_t.zip"

abbrev made : SiteContentBackupResult
made = record { file = target; created_at = 7; size = 2 }

backup_site_content-Archived_example :
    Archived listing_archiver itself
      (codes "/b")
      (codes "t")
      7
      (codes "s1")
      one_site
      files
      blog
      made
      ((codes "/srv/b/a.css", codes "body") ∷ (target, codes "PK") ∷ [])
unfolding backup_site_content get_site_by_id lookup trim_space insert clean to_lower trim_prefix
    delete has_prefix
backup_site_content-Archived_example =
    backup_site_content-Archived listing_archiver itself (codes "/b") (codes "t") 7 (codes "s1")
      one_site files blog made ((codes "/srv/b/a.css", codes "body") ∷ (target, codes "PK") ∷ [])
      told refl

abbrev entries : List DirEntry
entries =
    record { name = codes "b.txt"; is_dir = false; info = some (3, 9) }
    ∷ record { name = codes "Z"; is_dir = true; info = some (64, 8) }
    ∷ record { name = codes "A.txt"; is_dir = false; info = some (5, 7) }
    ∷ record { name = codes "gone"; is_dir = false; info = none }
    ∷ []

abbrev read_dir : Text → Table Text → Result OsError (List DirEntry)
read_dir path _ = ok entries

abbrev item : Text → Text → ℕ → ℕ → SiteFileEntry
item name kind size at = record {
  name = name;
  path = codes "css/" ++ name;
  type = kind;
  size = size;
  mod_time = at;
}

abbrev shown : List SiteFileEntry
shown =
    item (codes "Z") (codes "dir") 0 8
    ∷ item (codes "A.txt") (codes "file") 5 7
    ∷ item (codes "b.txt") (codes "file") 3 9
    ∷ []
