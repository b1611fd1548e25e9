-- ===== src/Sites/Archive/Archived.antt =====
-- What a backup of the content of a site that succeeds has done.
use nusantara_panel.Base.{
  ◌≡◌, refl, ap, subst, Text, codes, [], ◌++◌, List, true, Result, ok, err, text_eq, not, inl, inr,
  Bool-cases, Result-cases, Unicode, trim_space,
}
use nusantara_panel.Store.{Site, Time}
use nusantara_panel.Store.FileDb.Snapshot.{Repository}
use nusantara_panel.Store.FileDb.Methods.{get_site_by_id}
use nusantara_panel.Sites.Paths.{join_path}
use nusantara_panel.Sites.Files.{OsError}
use nusantara_panel.Sites.Archive.{
  Archiver, ArchiveError, SiteContentBackupResult, visit_all, zip_closed, zip_walked, zip_opened,
  zip_directory, sized, archive_moved, archived, archive_made, archive_dir, archive_name,
  backup_site_content,
}
use nusantara_panel.Sites.Archive.Names.{Tells, all_names, visit_all_names}

module _ {F Z : Type 0} (os : Archiver F Z) where
  -- The archive of a directory, written to a path: the system when it was opened, and the entries
  -- that it has when it is closed.
  pub record IsZipped (names : Z → List Text) (root target_zip : Text) (f f' : F) : Type 0 where
    pub first : Z
    pub last : Z
    pub opened : F
    pub full : F
    pub at_start : os.open_archive target_zip f ≡ (ok first, opened)
    pub entries : names last ≡ names first ++ all_names os root (os.walk root opened)
    pub at_end : os.close_archive last full ≡ (ok tt, f')

  zip_closed-ok :
      (p : Result Text (Unit {0}) × F) (f' : F) → zip_closed os p ≡ (ok tt, f') → p ≡ (ok tt, f')
  zip_closed-ok (err e, f) f' h = absurd (cc h)
  zip_closed-ok (ok _, f) f' h = cc

  zip_walked-ok :
      (p : Result Text Z × F) (f' : F)
      → zip_walked os p ≡ (ok tt, f')
      → (z : Z) × (f₁ : F) × (p ≡ (ok z, f₁)) × (os.close_archive z f₁ ≡ (ok tt, f'))
  zip_walked-ok (err e, f) f' h = absurd (cc h)
  zip_walked-ok (ok z, f) f' h = (z, f, refl, zip_closed-ok (os.close_archive z f) f' h)

  zip_opened-ok :
      (root : Text) (p : Result OsError Z × F) (f' : F)
      → zip_opened os root p ≡ (ok tt, f')
      → (z₀ : Z) × (f₀ : F) × (z : Z) × (f₁ : F) × (p ≡ (ok z₀, f₀))
        × (visit_all os root (os.walk root f₀) z₀ f₀ ≡ (ok z, f₁))
        × (os.close_archive z f₁ ≡ (ok tt, f'))
  zip_opened-ok root (err e, f) f' h = absurd (cc h)
  zip_opened-ok root (ok z₀, f₀) f' h =
      let (z, f₁, walked, closed) =
        zip_walked-ok (visit_all os root (os.walk root f₀) z₀ f₀) f' h in
      (z₀, f₀, z, f₁, refl, walked, closed)

  zip_directory-IsZipped :
      (names : Z → List Text) (root target_zip : Text) (f f' : F)
      → Tells os names
      → zip_directory os root target_zip f ≡ (ok tt, f')
      → IsZipped names root target_zip f f'
  unfolding zip_directory
  zip_directory-IsZipped names root target_zip f f' told h = elim (Result-cases (os.stat root f)) [
    | inr (e, p) ↦ absurd (cc (rw (p, zip_directory) at h))
    | inl (is_dir, p) ↦ elim (Bool-cases (not is_dir)) [
      | inl q ↦ absurd (cc (rw (p, q, zip_directory) at h))
      | inr q ↦
          let (z₀, f₀, z, f₁, start, walked, end) =
            zip_opened-ok root (os.open_archive target_zip f) f' (rw (p, q, zip_directory) at h) in
          record {
            first = z₀;
            last = z;
            opened = f₀;
            full = f₁;
            at_start = start;
            entries = visit_all_names os root names told (os.walk root f₀) z₀ z f₀ f₁ walked;
            at_end = end;
          }
    ]
  ]

  result_same :
      (site₀ site : Site) (made res : SiteContentBackupResult) (f f' : F)
      → ◌≡◌ {A = Result ArchiveError (Site × SiteContentBackupResult) × F}
          (ok (site₀, made), f)
          (ok (site, res), f')
      → (site₀ ≡ site) × (made ≡ res) × (f ≡ f')
  result_same site₀ site made res f f' h = (cc, cc, cc)

  -- What the last steps of a backup that succeeds have done, from the archive on.
  record IsPlaced (site₀ site : Site) (target : Text) (now : Time) (res : SiteContentBackupResult)
      (f f' : F) : Type 0 where
    same : site₀ ≡ site
    reported : record { file = target; created_at = now; size = res.size } ≡ res
    moved : os.rename (target ++ codes ".tmp") target f ≡ (ok tt, f')
    counted : os.size target f' ≡ ok res.size

  module _ (site₀ site : Site) (target : Text) (now : Time) (res : SiteContentBackupResult) where
    sized-ok :
        (f f' : F)
        → sized os site₀ target now f ≡ (ok (site, res), f')
        → (site₀ ≡ site)
          × (record { file = target; created_at = now; size = res.size } ≡ res)
          × (os.size target f' ≡ ok res.size)
          × (f ≡ f')
    sized-ok f f' h = elim (Result-cases (os.size target f)) [
      | inr (e, p) ↦ absurd (cc (rw (p, sized) at h))
      | inl (n, p) ↦
          let (same, made, kept) =
            result_same site₀ site (record { file = target; created_at = now; size = n }) res f f'
              (rw (p, sized) at h) in
          let counted : n ≡ res.size = ap (λ x. x.size) made in
          (
            same,
            subst (λ k. record { file = target; created_at = now; size = k } ≡ res) counted made,
            rw (← kept, ← counted) p,
            kept,
          )
    ]

    moved_done :
        (f : F) (p : Result OsError (Unit {0}) × F) (f' : F)
        → os.rename (target ++ codes ".tmp") target f ≡ p
        → archive_moved os site₀ target now p ≡ (ok (site, res), f')
        → IsPlaced site₀ site target now res f f'
    moved_done f (err e, g) f' made h = absurd (cc h)
    moved_done f (ok _, g) f' made h =
        let (same, reported, counted, kept) = sized-ok g f' h in
        record { same = same; reported = reported; moved = rw (← kept) made; counted = counted }

    archived-IsPlaced :
        (p : Result ArchiveError (Unit {0}) × F) (f' : F)
        → archived os site₀ target now p ≡ (ok (site, res), f')
        → (f : F) × (p ≡ (ok tt, f)) × IsPlaced site₀ site target now res f f'
    archived-IsPlaced (err e, f) f' h = absurd (cc h)
    archived-IsPlaced (ok _, f) f' h =
        (f, refl, moved_done f (os.rename (target ++ codes ".tmp") target f) f' refl h)

module _ ⦃u : Unicode⦄ {F Z : Type 0} (os : Archiver F Z) (names : Z → List Text)
    (backup_dir stamp : Text) (now : Time) where
  abbrev target_of : Site → Text
  target_of site = join_path (archive_dir os backup_dir site) (archive_name os stamp site)

  -- A backup of the content of a site: the system with the directory for it, and with the archive.
  pub record Archived (id : Text) (r : Repository) (f : F) (site : Site)
      (res : SiteContentBackupResult) (f' : F) : Type 0 where
    pub made : F
    pub zipped : F
    pub known : get_site_by_id id r ≡ ok site
    pub directory : os.mkdir_all (archive_dir os backup_dir site) f ≡ (ok tt, made)
    pub archive : IsZipped os names site.root_path (target_of site ++ codes ".tmp") made zipped
    pub moved : os.rename (target_of site ++ codes ".tmp") (target_of site) zipped ≡ (ok tt, f')
    pub counted : os.size (target_of site) f' ≡ ok res.size
    pub reported : record { file = target_of site; created_at = now; size = res.size } ≡ res

  archive_made-ok :
      (site₀ site : Site) (target : Text) (res : SiteContentBackupResult)
      (p : Result OsError (Unit {0}) × F) (f' : F)
      → archive_made os site₀ target now p ≡ (ok (site, res), f')
      → (f : F) × (p ≡ (ok tt, f))
        × (archived os site₀ target now
              (zip_directory os site₀.root_path (target ++ codes ".tmp") f)
            ≡ (ok (site, res), f'))
  archive_made-ok site₀ site target res (err e, f) f' h = absurd (cc h)
  archive_made-ok site₀ site target res (ok _, f) f' h = (f, refl, h)

  -- With a writer of archives whose entries can be told, a backup of the content of a site that is
  -- not a dry run and reports success is of a stored site: it made the directory, wrote an archive to
  -- a temporary file, with an entry, in the order of the walk, for each directory and each file that
  -- a walk of the root met below it, by its path from the root, and none for a symbolic link; closed
  -- it, moved it to the file that it reports, and reports the size that this file has.
  pub backup_site_content-Archived :
      (id : Text) (r : Repository) (f : F) (site : Site) (res : SiteContentBackupResult) (f' : F)
      → Tells os names
      → backup_site_content os true backup_dir now stamp id r f ≡ (ok (site, res), f')
      → Archived id r f site res f'
  unfolding backup_site_content
  backup_site_content-Archived id r f site res f' told h =
      elim (Result-cases (get_site_by_id id r)) [
        | inr (e, p) ↦ absurd (cc (rw (p, backup_site_content) at h))
        | inl (site₀, p) ↦ elim (Bool-cases (text_eq (trim_space backup_dir) [])) [
          | inl q ↦ absurd (cc (rw (p, q, backup_site_content) at h))
          | inr q ↦
              let (made, there, rest) =
                archive_made-ok site₀ site (target_of site₀) res
                  (os.mkdir_all (archive_dir os backup_dir site₀) f) f'
                  (rw (p, q, backup_site_content) at h) in
              let (zipped, done, placed) =
                archived-IsPlaced os site₀ site (target_of site₀) now res
                  (zip_directory os site₀.root_path (target_of site₀ ++ codes ".tmp") made) f'
                  rest in
              let archive =
                zip_directory-IsZipped os names site₀.root_path (target_of site₀ ++ codes ".tmp")
                  made zipped told done in
              let of_site : Archived id r f site₀ res f' = record {
                made = made;
                zipped = zipped;
                known = p;
                directory = there;
                archive = archive;
                moved = placed.moved;
                counted = placed.counted;
                reported = placed.reported;
              } in
              subst (λ x. Archived id r f x res f') placed.same of_site
        ]
      ]
