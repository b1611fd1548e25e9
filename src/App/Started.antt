-- ===== src/App/Started.antt =====
-- What a start of the panel on a machine without a state file gives.
use nusantara_panel.Base.{
  subst, arith, ◌≡◌, refl, ap, sym, ◌∙◌, Text, [], false, Option, none, Result, ok, err, not, ◌&&◌,
  ◌==◌, length, inl, inr, Bool-cases, Result-cases, Option-cases, text_eq, Unicode, ltb, to_lower,
  trim_space,
}
use nusantara_panel.Base.Table.{lookup}
use nusantara_panel.Store
use nusantara_panel.Store.{Time, User, conflict}
use nusantara_panel.Store.FileDb.Snapshot.{
  Codec, Outcome, saved, write_fails, rename_fails, Reading, readable, unreadable, Disk, Repository,
  new_snapshot, new, load, save, replace_file,
}
use nusantara_panel.Store.FileDb.Methods.{migrate, create_user, count_users}
use nusantara_panel.Store.FileDb.Invariant.{save-snap}
use nusantara_panel.Password.{hash}
use nusantara_panel.Auth
use nusantara_panel.Auth.{ensure_bootstrap_admin, stored}
use nusantara_panel.Store.FileDb.Calls.{creates_user, apply}
use nusantara_panel.Store.FileDb.Durability.{IsAtomic, apply-IsAtomic}
use nusantara_panel.Auth.Passwords.{IsGood, ensure_bootstrap_admin-IsGood}
use nusantara_panel.Settings.{Config}
use nusantara_panel.App.{
  some, Surroundings, Panel, panel, auth_service, start_up, migrated, admin_ensured, with_admin,
}

replace_file-path :
    (o : Outcome) (raw : Text) (r : Repository) → (replace_file o raw r).1.path ≡ r.path
unfolding replace_file
replace_file-path saved raw r = refl
replace_file-path (write_fails part cause) raw r = refl
replace_file-path (rename_fails cause) raw r = refl

save-path : (codec : Codec) (o : Outcome) (r : Repository) → (save codec o r).1.path ≡ r.path
unfolding save
save-path codec o r = elim (Result-cases (codec.encode r.snap)) [
  | inl (raw, e) ↦ rw (save, e) (replace_file-path o raw r)
  | inr (cause, e) ↦ rw (save, e) refl
]

-- A repository that nothing has been stored in, at a path.
record IsBlank (path : Text) (r : Repository) : Type 0 where
  at : r.path ≡ path
  blank : r.snap ≡ new_snapshot

save-IsBlank :
    (codec : Codec) (o : Outcome) (path : Text) (r r' : Repository)
    → IsBlank path r
    → (save codec o r).1 ≡ r'
    → IsBlank path r'
save-IsBlank codec o path r r' b e = record {
  at = ap (λ x. x.path) (sym e) ∙ save-path codec o r ∙ b.at;
  blank = ap (λ x. x.snap) (sym e) ∙ save-snap codec o r ∙ b.blank;
}

migrate-IsBlank :
    (codec : Codec) (o : Outcome) (path : Text) (r r' : Repository)
    → IsBlank path r
    → (migrate codec o r).1 ≡ r'
    → IsBlank path r'
unfolding migrate
migrate-IsBlank codec o path r r' b e =
    let version : r.snap.schema_version ≡ 1 = ap (λ s. s.schema_version) b.blank in
    let current : (r.snap.schema_version == 0) ≡ false = ground (arith, version) in
    save-IsBlank codec o path r r' b (rw (migrate, current) at e)

module _ ⦃u : Unicode⦄ where
  kept :
      (p : Result Store.Error (Unit {0}) × Repository) (r : Repository)
      → (let (res, made) = p in
          elim res as (λ _. Result Store.Error Repository) [ ok _ ↦ ok made | err e ↦ err e ])
        ≡ ok r
      → p.1 ≡ r
  kept (ok _, made) r h = cc
  kept (err e, made) r h = absurd (cc h)

  loaded-IsBlank :
      (codec : Codec) (reading : Reading) (o : Outcome) (path : Text) (disk : Disk) (r : Repository)
      → disk.state ≡ none
      → (let (res, made) =
            load codec reading o (record { path = path; snap = new_snapshot; disk = disk }) in
          elim res as (λ _. Result Store.Error Repository) [ ok _ ↦ ok made | err e ↦ err e ])
        ≡ ok r
      → IsBlank path r
  unfolding load
  loaded-IsBlank codec (unreadable cause) o path disk r z h = absurd (cc h)
  loaded-IsBlank codec readable o path disk r z h =
      let start : Repository = record { path = path; snap = new_snapshot; disk = disk } in
      let begins : IsBlank path start = record { at = refl; blank = refl } in
      let missing : load codec readable o start ≡ save codec o start = simp (load, z) in
      save-IsBlank codec o path start r begins
        (ap (λ q. q.1) (sym missing) ∙ kept (load codec readable o start) r h)

  new-IsBlank :
      (codec : Codec) (dir : Option Text) (reading : Reading) (o : Outcome) (path : Text)
      (disk : Disk) (r : Repository)
      → disk.state ≡ none
      → new codec dir reading o path disk ≡ ok r
      → IsBlank path r
  unfolding new load
  new-IsBlank codec dir reading o path disk r z h = elim (Bool-cases (text_eq path [])) [
    | inl e ↦ absurd (cc (rw (new, e) at h))
    | inr e ↦ elim (Option-cases dir) [
      | inr (cause, f) ↦ absurd (cc (rw (new, e, f) at h))
      | inl f ↦ loaded-IsBlank codec reading o path disk r z (rw (new, e, f) at h)
    ]
  ]

  create_user-path :
      (codec : Codec) (o : Outcome) (user : User) (r : Repository)
      → (create_user codec o user r).1.path ≡ r.path
  unfolding create_user
  create_user-path codec o user r =
      elim (Option-cases (lookup (to_lower user.username) r.snap.username_index)) [
        | inl e ↦ rw (create_user, e) (save-path codec o (record r { snap = _ }))
        | inr (id, e) ↦ rw (create_user, e) refl
      ]

  stored-path : (p : Result Store.Error (Unit {0}) × Repository) → (stored p).1.path ≡ p.1.path
  stored-path (ok _, r) = refl
  stored-path (err e, r) = refl

  ensure_bootstrap_admin-path :
      (s : Auth.Service) (o : Outcome) (now : Time) (id : Result Text Text) (username plain : Text)
      (r : Repository)
      → (ensure_bootstrap_admin s o now id username plain r).1.path ≡ r.path
  unfolding ensure_bootstrap_admin
  ensure_bootstrap_admin-path s o now id username plain r =
      elim (Bool-cases (ltb 0 (count_users r))) [
        | inl e ↦ rw (ensure_bootstrap_admin, e) refl
        | inr e ↦ elim (Bool-cases (text_eq (trim_space plain) [])) [
          | inl f ↦ rw (ensure_bootstrap_admin, e, f) refl
          | inr f ↦ elim (Result-cases (hash s.bcrypt plain)) [
            | inr (cause, g) ↦ rw (ensure_bootstrap_admin, e, f, g) refl
            | inl (encoded, g) ↦ elim (Result-cases id) [
              | inr (cause, k) ↦ rw (ensure_bootstrap_admin, e, f, g, k) refl
              | inl (name, k) ↦
                  rw (ensure_bootstrap_admin, e, f, g, k)
                    (stored-path (create_user s.codec o _ r) ∙ create_user-path s.codec o _ r)
            ]
          ]
        ]
      ]

  -- The state in memory stands in the file.
  pub record IsSaved (codec : Codec) (r : Repository) : Type 0 where
    pub raw : Text
    pub encoded : codec.encode r.snap ≡ ok raw
    pub in_file : r.disk.state ≡ some raw

  atomic-IsSaved :
      (codec : Codec) (r r' : Repository) (p : Result Store.Error (Unit {0}) × Repository)
      → p ≡ (ok tt, r')
      → IsAtomic codec r p
      → IsSaved codec r'
  atomic-IsSaved codec r r' p e h =
      let (raw, encoded, in_file) = subst (IsAtomic codec r) e h in
      record { raw = raw; encoded = encoded; in_file = in_file }

  stored-ok :
      (p : Result Store.Error (Unit {0}) × Repository) (r : Repository)
      → stored p ≡ (ok tt, r)
      → p ≡ (ok tt, r)
  stored-ok (ok _, made) r h = cc
  stored-ok (err e, made) r h = absurd (cc h)

  ensure_bootstrap_admin-IsSaved :
      (s : Auth.Service) (o : Outcome) (now : Time) (id : Result Text Text) (username plain : Text)
      (r r' : Repository)
      → count_users r ≡ 0
      → ensure_bootstrap_admin s o now id username plain r ≡ (ok tt, r')
      → IsSaved s.codec r'
  unfolding ensure_bootstrap_admin apply
  ensure_bootstrap_admin-IsSaved s o now id username plain r r' z h =
      let first : ltb 0 (count_users r) ≡ false = ground (arith, z) in
      elim (Bool-cases (text_eq (trim_space plain) [])) [
        | inl f ↦ absurd (cc (rw (ensure_bootstrap_admin, first, f) at h))
        | inr f ↦ elim (Result-cases (hash s.bcrypt plain)) [
          | inr (cause, g) ↦ absurd (cc (rw (ensure_bootstrap_admin, first, f, g) at h))
          | inl (encoded, g) ↦ elim (Result-cases id) [
            | inr (cause, k) ↦ absurd (cc (rw (ensure_bootstrap_admin, first, f, g, k) at h))
            | inl (name, k) ↦
                let made = stored-ok _ r' (rw (ensure_bootstrap_admin, first, f, g, k) at h) in
                atomic-IsSaved s.codec r r' _ made (apply-IsAtomic s.codec o (creates_user _) r)
          ]
        ]
      ]

  -- A panel that has just been started for the first time: its administrator can log in, its state,
  -- with the administrator, is saved in the file that is set, and its backups are of that file.
  pub record IsFresh (c : Config) (p : Panel) : Type 0 where
    pub saved_state : IsSaved p.auth.codec p.repo
    pub admin : IsGood p.auth c.bootstrap_admin_username c.bootstrap_admin_password p.repo
    pub at : p.repo.path ≡ c.db_path
    pub backed_up : p.backup.state_file ≡ p.repo.path

  module _ (c : Config) (found : Surroundings) where
    admin_ensured-ok :
        (p : Panel) (q : Result Auth.Error (Unit {0}) × Repository)
        → admin_ensured c found q ≡ ok p
        → (r : Repository) × (q ≡ (ok tt, r)) × (panel c found r ≡ p)
    admin_ensured-ok p (err e, r) h = absurd (cc h)
    admin_ensured-ok p (ok _, r) h = (r, refl, cc)

    admin_ensured-IsFresh :
        (p : Panel) (r : Repository)
        → IsBlank c.db_path r
        → admin_ensured c found (with_admin c found r) ≡ ok p
        → IsFresh c p
    unfolding count_users
    admin_ensured-IsFresh p r b h =
        let (r', made, same) = admin_ensured-ok p (with_admin c found r) h in
        let none_yet : count_users r ≡ 0 = ap (λ x. length x.users) b.blank in
        let good =
          ensure_bootstrap_admin-IsGood (auth_service c found) found.admin_save found.now
            found.admin_id c.bootstrap_admin_username c.bootstrap_admin_password r r' none_yet
            made in
        let there : r'.path ≡ c.db_path =
          ap (λ q. q.1.path) (sym made)
          ∙ ensure_bootstrap_admin-path (auth_service c found) found.admin_save found.now
              found.admin_id c.bootstrap_admin_username c.bootstrap_admin_password r
          ∙ b.at in
        let fresh : IsFresh c (panel c found r') = record {
          saved_state =
              ensure_bootstrap_admin-IsSaved (auth_service c found) found.admin_save found.now
                found.admin_id c.bootstrap_admin_username c.bootstrap_admin_password r r' none_yet
                made;
          admin = good;
          at = there;
          backed_up = sym there;
        } in
        subst (IsFresh c) same fresh

    migrated-IsFresh :
        (p : Panel) (q : Result Store.Error (Unit {0}) × Repository)
        → IsBlank c.db_path q.1
        → migrated c found q ≡ ok p
        → IsFresh c p
    migrated-IsFresh p (err e, r) b h = absurd (cc h)
    migrated-IsFresh p (ok _, r) b h = admin_ensured-IsFresh p r b h

    -- A start that succeeds, on a machine where the state file is not there, gives a panel where an
    -- active user has the name of the administrator and a hash that the given password fits, whose
    -- state in memory, with that user, is encoded in the file that is set, and whose backups are of
    -- that file.
    pub start_up-IsFresh :
        (p : Panel) → found.disk.state ≡ none → start_up c found ≡ ok p → IsFresh c p
    unfolding start_up
    start_up-IsFresh p z h =
        elim (Bool-cases (not found.check.supported && not c.allow_non_ubuntu)) [
          | inl e ↦ absurd (cc (rw (start_up, e) at h))
          | inr e ↦ elim (Option-cases found.data_dir_fails) [
            | inr (cause, f) ↦ absurd (cc (rw (start_up, e, f) at h))
            | inl f ↦
                elim (Result-cases (
                  new found.codec found.repo_dir_fails found.reading found.load_save c.db_path
                    found.disk)) [
                      | inr (cause, g) ↦ absurd (cc (rw (start_up, e, f, g) at h))
                      | inl (r, g) ↦
                          let blank =
                            new-IsBlank found.codec found.repo_dir_fails found.reading
                              found.load_save c.db_path found.disk r z g in
                          let next = migrate found.codec found.migrate_save r in
                          migrated-IsFresh p next
                            (migrate-IsBlank found.codec found.migrate_save c.db_path r next.1 blank
                              refl)
                            (rw (start_up, e, f, g) at h)
                    ]
          ]
        ]
