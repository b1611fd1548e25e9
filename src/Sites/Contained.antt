-- ===== src/Sites/Contained.antt =====
-- What a path that `normalize_relative_path` accepts is made of, and where an upload writes.
use nusantara_panel.Base.{
  cons_head, ◌==◌, any, ◌∙◌, ◌≡◌, ◌⊎◌, ◌≤◌, refl, Text, codes, [], ◌∷◌, List, Bool, true, false,
  not, ◌||◌, text_eq, has_prefix, Result, ok, err, Option, some, arith, Unicode, trim_space, All,
  All-reverse, split, join, Bool-cases, inl, inr, replace_all, trim_prefix, length, ℕ, Option-cases,
  Result-cases,
}
use nusantara_panel.Store.{Site}
use nusantara_panel.Store.FileDb.Snapshot.{Repository}
use nusantara_panel.Store.FileDb.Methods.{get_site_by_id}
use nusantara_panel.Sites.{Error}
use nusantara_panel.Sites.Paths.{
  clean, clean_segments, go_up, is_dot, normalize_relative_path, join_path, is_within_root, dir,
}
use nusantara_panel.Sites.Files.{
  then_, OsError, Os, upload_site_file, max_site_upload_bytes, put_file,
}

abbrev has_slash : Text → Bool
has_slash s = any (λ c. c == b'/') s

-- A segment that names an entry of its directory
abbrev pub is_plain : Text → Bool
is_plain s = not (is_dot s || text_eq s (codes "..") || has_slash s)

abbrev pub ArePlain : List Text → Type 0
ArePlain ps = All (λ p. is_plain p ≡ true) ps

go_up-ArePlain : (done : List Text) → ArePlain done → ArePlain (go_up true done)
go_up-ArePlain [] h = tt
go_up-ArePlain (top ∷ done) h = elim (Bool-cases (text_eq top (codes ".."))) [
  | inl e ↦ ground arith
  | inr e ↦ rw e h.1
]

clean_segments-ArePlain :
    (done rest : List Text)
    → ArePlain done
    → All (λ p. has_slash p ≡ false) rest
    → ArePlain (clean_segments true done rest)
unfolding clean_segments
clean_segments-ArePlain done [] h n = All-reverse (λ p. is_plain p ≡ true) done h
clean_segments-ArePlain done (s ∷ rest) h n = elim (Bool-cases (is_dot s)) [
  | inl e ↦ rw e (clean_segments-ArePlain done rest h n.1)
  | inr e ↦ elim (Bool-cases (text_eq s (codes ".."))) [
    | inl f ↦ rw (e, f) (clean_segments-ArePlain (go_up true done) rest (go_up-ArePlain done h) n.1)
    | inr f ↦ rw (e, f) (clean_segments-ArePlain (s ∷ done) rest (ground (arith, n.0), h) n.1)
  ]
]

cons_head_slashless :
    (c : ℕ) (ps : List Text)
    → (c == b'/') ≡ false
    → All (λ p. has_slash p ≡ false) ps
    → All (λ p. has_slash p ≡ false) (cons_head c ps)
cons_head_slashless c [] e h = (rw e refl, tt)
cons_head_slashless c (p ∷ ps) e h = (rw e h.0, h.1)

-- The pieces between the slashes have none.
split_slashless : (t : Text) → All (λ p. has_slash p ≡ false) (split t b'/')
unfolding split
split_slashless [] = (refl, tt)
split_slashless (c ∷ s) = elim (Bool-cases (c == b'/')) [
  | inl e ↦ rw e (refl, split_slashless s)
  | inr e ↦ rw e (cons_head_slashless c (split s b'/') e (split_slashless s))
]

abbrev segments : Text → List Text
segments t = clean_segments true [] (split (b'/' ∷ t) b'/')

trim_prefix-clean : (t : Text) → trim_prefix (clean (b'/' ∷ t)) (codes "/") ≡ join (segments t) b'/'
unfolding clean trim_prefix has_prefix
trim_prefix-clean t = refl

module _ ⦃u : Unicode⦄ where
  abbrev trimmed : Text → Text
  trimmed raw = trim_space (replace_all raw (codes "\\") (codes "/"))

  normalize_relative_path-cases :
      (raw rel : Text) (allow_empty : Bool)
      → normalize_relative_path raw allow_empty ≡ ok rel
      → (rel ≡ []) ⊎ (rel ≡ trim_prefix (clean (b'/' ∷ trimmed raw)) (codes "/"))
  unfolding normalize_relative_path
  normalize_relative_path-cases raw rel allow_empty h = grind arith

  -- A relative path that is accepted is empty, or its segments, joined by slashes, are plain: none is
  -- empty, has a slash, or is the name of its own directory or of the directory above.
  pub normalize_relative_path-ArePlain :
      (raw rel : Text) (allow_empty : Bool)
      → normalize_relative_path raw allow_empty ≡ ok rel
      → (rel ≡ []) ⊎ ((ps : List Text) × ArePlain ps × (rel ≡ join ps b'/'))
  normalize_relative_path-ArePlain raw rel allow_empty h =
      elim (normalize_relative_path-cases raw rel allow_empty h) [
        | inl e ↦ inl e
        | inr e ↦ inr (
          segments (trimmed raw),
          clean_segments-ArePlain [] (split (b'/' ∷ trimmed raw) b'/') tt
              (split_slashless (b'/' ∷ trimmed raw)),
          e ∙ trim_prefix-clean (trimmed raw),
        )
      ]

  -- What an upload that reports success has checked and done.
  pub record Uploaded {F : Type 0} (os : Os F) (decode : Text → Option Text)
      (id rel_path content : Text) (r : Repository) (f : F) (site : Site) (clean_path : Text)
      (size : ℕ) (f' : F) : Type 0 where
    pub bytes : Text
    pub known : get_site_by_id id r ≡ ok site
    pub accepted : normalize_relative_path rel_path false ≡ ok clean_path
    pub decoded : decode (trim_space content) ≡ some bytes
    pub counted : size ≡ length bytes
    pub small : length bytes ≤ max_site_upload_bytes
    pub inside : is_within_root site.root_path (join_path site.root_path clean_path) ≡ true
    pub written :
        os.write_file
          (join_path site.root_path clean_path)
          bytes
          (os.mkdir_all (dir (join_path site.root_path clean_path)) f).1
        ≡ (ok tt, f')

  then_-ok :
      {F A : Type 0} (wrong : OsError → Error) (next : F → Result Error A × F)
      (p : Result OsError (Unit {0}) × F) (a : A) (f' : F)
      → then_ wrong next p ≡ (ok a, f')
      → (p.0 ≡ ok tt) × (next p.1 ≡ (ok a, f'))
  then_-ok wrong next (err e, f) a f' h = ground arith
  then_-ok wrong next (ok _, f) a f' h = (refl, h)

  put_file_ok :
      {F : Type 0} (os : Os F) (site site' : Site) (clean_path full_path bytes clean_path' : Text)
      (f f' : F) (size : ℕ)
      → put_file os site clean_path full_path bytes f ≡ (ok (site', clean_path', size), f')
      → (site ≡ site')
        × (clean_path ≡ clean_path')
        × (size ≡ length bytes)
        × (os.write_file full_path bytes (os.mkdir_all (dir full_path) f).1 ≡ (ok tt, f'))
  put_file_ok os site site' clean_path full_path bytes clean_path' f f' size h =
      let (made, h₁) = then_-ok _ _ (os.mkdir_all (dir full_path) f) _ f' h in
      let (wrote, h₂) =
        then_-ok _ _ (os.write_file full_path bytes (os.mkdir_all (dir full_path) f).1) _ f' h₁ in
      (ground arith, ground arith, ground arith, ground arith)

  upload_site_file_guarded :
      {F : Type 0} (os : Os F) (decode : Text → Option Text) (id rel_path content bytes path : Text)
      (r : Repository) (f f' : F) (site₀ site : Site) (clean_path : Text) (size : ℕ)
      → get_site_by_id id r ≡ ok site₀
      → normalize_relative_path rel_path false ≡ ok path
      → decode (trim_space content) ≡ some bytes
      → upload_site_file os decode id rel_path content r f ≡ (ok (site, clean_path, size), f')
      → (length bytes ≤ max_site_upload_bytes)
        × (is_within_root site₀.root_path (join_path site₀.root_path path) ≡ true)
        × (put_file os site₀ path (join_path site₀.root_path path) bytes f
            ≡ (ok (site, clean_path, size), f'))
  unfolding upload_site_file
  upload_site_file_guarded os decode id rel_path content bytes path r f f' site₀ site clean_path
        size p q d h =
      ground arith

  -- An upload that reports success is of a stored site, an accepted path and a text that decodes to
  -- a size within the limit; it wrote the decoded bytes to the path under the site's root, once the
  -- directory was made, and the path passed the check of the root.
  pub upload_site_file-Uploaded :
      {F : Type 0} (os : Os F) (decode : Text → Option Text) (id rel_path content : Text)
      (r : Repository) (f f' : F) (site : Site) (clean_path : Text) (size : ℕ)
      → upload_site_file os decode id rel_path content r f ≡ (ok (site, clean_path, size), f')
      → Uploaded os decode id rel_path content r f site clean_path size f'
  unfolding upload_site_file
  upload_site_file-Uploaded os decode id rel_path content r f f' site clean_path size h =
      elim (Result-cases (get_site_by_id id r)) [
        | inr (e, p) ↦ absurd (cc (rw (p, upload_site_file) at h))
        | inl (site₀, p) ↦ elim (Result-cases (normalize_relative_path rel_path false)) [
          | inr (e, q) ↦ absurd (cc (rw (p, q, upload_site_file) at h))
          | inl (path, q) ↦ elim (Option-cases (decode (trim_space content))) [
            | inl d ↦ absurd (cc (rw (p, q, d, upload_site_file) at h))
            | inr (bytes, d) ↦
                let (small, inside, put) =
                  upload_site_file_guarded os decode id rel_path content bytes path r f f' site₀
                    site clean_path size p q d h in
                let (same, cleaned, counted, written) =
                  put_file_ok os site₀ site path (join_path site₀.root_path path) bytes clean_path f
                    f' size put in
                record {
                  bytes = bytes;
                  known = rw (← same) p;
                  accepted = rw (← cleaned) q;
                  decoded = d;
                  counted = counted;
                  small = small;
                  inside = rw (← same, ← cleaned) inside;
                  written = rw (← same, ← cleaned) written;
                }
          ]
        ]
      ]
