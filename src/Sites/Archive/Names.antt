-- ===== src/Sites/Archive/Names.antt =====
-- What an archive of a site holds.
use nusantara_panel.Base.{
  sym, ◌≡◌, refl, ◌∙◌, ap, Text, codes, [], ◌∷◌, ◌++◌, List, Result, ok, err, text_eq, ◌||◌,
  if◌then◌else◌, inl, inr, Bool-cases, Result-cases,
}
use mathlib.Core.List.{append-nil, append_assoc}
use nusantara_panel.Sites.Archive.{
  Archiver, Visit, Kind, symlink, folder, regular, added, visit_path, visit_all, go_on,
}

-- A writer of archives whose entries can be told: each of the two calls that succeed adds one behind
-- those that are there.
pub record Tells {F Z : Type 0} (os : Archiver F Z) (names : Z → List Text) : Type 0 where
  pub folder_told :
      (name : Text) (z z' : Z) (f f' : F)
      → os.add_folder name z f ≡ (ok z', f')
      → names z' ≡ names z ++ name ∷ []
  pub file_told :
      (name path : Text) (z z' : Z) (f f' : F)
      → os.add_file name path z f ≡ (ok z', f')
      → names z' ≡ names z ++ name ∷ []

module _ {F Z : Type 0} (os : Archiver F Z) (root : Text) where
  -- The entry of what is found, by its path from the root: none for a link.
  abbrev pub entry_names : Text → Kind → List Text
  entry_names name symlink = []
  entry_names name folder = (name ++ codes "/") ∷ []
  entry_names name regular = name ∷ []

  abbrev pub relative_names : Kind → Result Text Text → List Text
  relative_names kind (err e) = []
  relative_names kind (ok name) =
      if text_eq name (codes ".") || text_eq name [] then [] else entry_names name kind

  abbrev pub names_of : Visit → List Text
  names_of visit = elim visit.found [
    | err e ↦ []
    | ok kind ↦
        if text_eq visit.current root then [] else relative_names kind (os.rel root visit.current)
  ]

  abbrev pub all_names : List Visit → List Text
  all_names [] = []
  all_names (visit ∷ visits) = names_of visit ++ all_names visits

  module _ (names : Z → List Text) (told : Tells os names) where
    same_names :
        (z z' : Z) (f f' : F)
        → ◌≡◌ {A = Result Text Z × F} (ok z, f) (ok z', f')
        → names z' ≡ names z ++ []
    same_names z z' f f' h = ap names (cc) ∙ sym (append-nil (names z))

    added_names :
        (current name : Text) (kind : Kind) (z z' : Z) (f f' : F)
        → added os current name kind z f ≡ (ok z', f')
        → names z' ≡ names z ++ entry_names name kind
    added_names current name symlink z z' f f' h = same_names z z' f f' h
    added_names current name folder z z' f f' h = told.folder_told (name ++ codes "/") z z' f f' h
    added_names current name regular z z' f f' h = told.file_told name current z z' f f' h

    visit_path_names :
        (visit : Visit) (z z' : Z) (f f' : F)
        → visit_path os root visit z f ≡ (ok z', f')
        → names z' ≡ names z ++ names_of visit
    unfolding visit_path
    visit_path_names visit z z' f f' h = elim (Result-cases visit.found) [
      | inr (e, p) ↦ absurd (cc (rw (p, visit_path) at h))
      | inl (kind, p) ↦ elim (Bool-cases (text_eq visit.current root)) [
        | inl q ↦ rw (p, q) (same_names z z' f f' (rw (p, q, visit_path) at h))
        | inr q ↦ elim (Result-cases (os.rel root visit.current)) [
          | inr (e, t) ↦ absurd (cc (rw (p, q, t, visit_path) at h))
          | inl (name, t) ↦ elim (Bool-cases (text_eq name (codes ".") || text_eq name [])) [
            | inl d ↦ rw (p, q, t, d) (same_names z z' f f' (rw (p, q, t, d, visit_path) at h))
            | inr d ↦
                rw (p, q, t, d)
                  (added_names visit.current name kind z z' f f' (rw (p, q, t, d, visit_path) at h))
          ]
        ]
      ]
    ]

    go_on-ok :
        (next : Z → F → Result Text Z × F) (p : Result Text Z × F) (z' : Z) (f' : F)
        → go_on os next p ≡ (ok z', f')
        → (z₁ : Z) × (f₁ : F) × (p ≡ (ok z₁, f₁)) × (next z₁ f₁ ≡ (ok z', f'))
    go_on-ok next (err e, f) z' f' h = absurd (cc h)
    go_on-ok next (ok z, f) z' f' h = (z, f, refl, h)

    -- A walk that succeeds adds an entry for each directory and each file that it visits below the
    -- root, in the order of the visits, under its path from the root, with a slash behind a directory,
    -- and none for a symbolic link.
    pub visit_all_names :
        (visits : List Visit) (z z' : Z) (f f' : F)
        → visit_all os root visits z f ≡ (ok z', f')
        → names z' ≡ names z ++ all_names visits
    unfolding visit_all
    visit_all_names [] z z' f f' h = same_names z z' f f' h
    visit_all_names (visit ∷ visits) z z' f f' h =
        let (z₁, f₁, first, rest) = go_on-ok _ (visit_path os root visit z f) z' f' h in
        rw (visit_all_names visits z₁ z' f₁ f' rest, visit_path_names visit z z₁ f f₁ first)
          (append_assoc (names z) (names_of visit) (all_names visits))
