-- ===== src/Store/FileDb/Accounts.antt =====
-- Users and sites as their callers see them: names and domains are unique, and what was created is
-- found.
use nusantara_panel.Base.{
  Text, Option, ◌≡◌, Option-cases, inl, inr, some, none, arith, ok, err, List, Unicode, to_lower,
}
use nusantara_panel.Base.Table.{lookup, insert, delete, lookup-insert_self, lookup-delete_self}
use nusantara_panel.Store.{User, Site, conflict, not_found, write_tmp_state}
use nusantara_panel.Store.FileDb.Snapshot.{
  Repository, Codec, Outcome, save, replace_file, write_fails,
}
use nusantara_panel.Store.FileDb.Methods.{
  create_user, create_site, delete_site, get_user_by_username, get_site_by_id,
}
use nusantara_panel.Store.FileDb.Indexes.{Indexed-unique}
use nusantara_panel.Store.FileDb.Rebuild.{HasUniqueKeys, username_key, domain_key}
use nusantara_panel.Store.FileDb.Calls.{Call}
use nusantara_panel.Store.FileDb.Invariant.{save-snap, IsValid}
use nusantara_panel.Store.FileDb.Invariant.Steps.{run, AreAdmissible, run-IsValid}

pub get_site_by_id_found :
    (id : Text) (site : Site) (r : Repository)
    → lookup id r.snap.sites ≡ some site
    → get_site_by_id id r ≡ ok site
unfolding get_site_by_id
get_site_by_id_found id site r e = ground arith

pub get_site_by_id_missing :
    (id : Text) (r : Repository)
    → lookup id r.snap.sites ≡ none
    → get_site_by_id id r ≡ err not_found
unfolding get_site_by_id
get_site_by_id_missing id r e = ground arith

module _ ⦃u : Unicode⦄ where
  -- After any history of admissible calls on a valid state, with saves that succeed or fail, two
  -- stored users whose names agree in lower case are one user, and the same holds of two sites and
  -- their domains.
  pub run_unique :
      (codec : Codec) (cs : List (Outcome × Call)) (r : Repository)
      → IsValid r.snap
      → AreAdmissible codec cs r
      → HasUniqueKeys username_key (run codec cs r).snap.users
        × HasUniqueKeys domain_key (run codec cs r).snap.sites
  run_unique codec cs r v h =
      let valid = run-IsValid codec cs r v h in
      (
        Indexed-unique username_key _ _ valid.users_indexed,
        Indexed-unique domain_key _ _ valid.sites_indexed,
      )

  pub get_user_by_username_found :
      (name id : Text) (user : User) (r : Repository)
      → lookup (to_lower name) r.snap.username_index ≡ some id
      → lookup id r.snap.users ≡ some user
      → get_user_by_username name r ≡ ok user
  unfolding get_user_by_username
  get_user_by_username_found name id user r p q = ground arith

  pub create_user-snap :
      (codec : Codec) (o : Outcome) (user : User) (r : Repository)
      → lookup (to_lower user.username) r.snap.username_index ≡ none
      → (create_user codec o user r).1.snap ≡ record r.snap {
        users = insert user.id user r.snap.users;
        username_index = insert (to_lower user.username) user.id r.snap.username_index;
      }
  unfolding create_user
  create_user-snap codec o user r e = rw e (save-snap codec o (record r { snap = _ }))

  pub create_user_taken :
      (codec : Codec) (o : Outcome) (user : User) (r : Repository) (id : Text)
      → lookup (to_lower user.username) r.snap.username_index ≡ some id
      → create_user codec o user r ≡ (err conflict, r)
  unfolding create_user
  create_user_taken codec o user r id e = ground arith

  -- On a valid state, `create_user` refuses a name that a stored user has in any mixture of cases, and
  -- changes nothing.
  create_user_refused :
      (codec : Codec) (o : Outcome) (user : User) (r : Repository) (id : Text) (old : User)
      → IsValid r.snap
      → lookup id r.snap.users ≡ some old
      → to_lower old.username ≡ to_lower user.username
      → create_user codec o user r ≡ (err conflict, r)
  create_user_refused codec o user r id old v h e =
      create_user_taken codec o user r id (rw (← e) (v.users_indexed.listed id old h))

  -- No stored user has the name, in any mixture of cases.
  abbrev pub IsVacant : Text → Repository → Type 0
  IsVacant name r =
      (id : Text) (old : User)
      → lookup id r.snap.users ≡ some old
      → ¬ (to_lower old.username ≡ to_lower name)

  -- On a valid state where no stored user has the name in any mixture of cases, the user that
  -- `create_user` makes is found by every spelling of its name, whether or not the save succeeds.
  create_user_found :
      (codec : Codec) (o : Outcome) (user : User) (r : Repository) (name : Text)
      → IsValid r.snap
      → IsVacant user.username r
      → to_lower name ≡ to_lower user.username
      → get_user_by_username name (create_user codec o user r).1 ≡ ok user
  create_user_found codec o user r name v free e =
      elim (Option-cases (lookup (to_lower user.username) r.snap.username_index)) [
        | inr (id, taken) ↦
            let (w, p, q) = v.users_indexed.backed _ id taken in absurd (free id w p q)
        | inl vacant ↦
            let now = create_user-snap codec o user r vacant in
            get_user_by_username_found name user.id user (create_user codec o user r).1
              (rw (now, e) (lookup-insert_self _ user.id r.snap.username_index))
              (rw now (lookup-insert_self user.id user r.snap.users))
      ]

  pub create_site-snap :
      (codec : Codec) (o : Outcome) (site : Site) (r : Repository)
      → lookup (to_lower site.domain) r.snap.domain_index ≡ none
      → (create_site codec o site r).1.snap ≡ record r.snap {
        sites = insert site.id site r.snap.sites;
        domain_index = insert (to_lower site.domain) site.id r.snap.domain_index;
      }
  unfolding create_site
  create_site-snap codec o site r e = rw e (save-snap codec o (record r { snap = _ }))

  create_site_fails :
      (codec : Codec) (site : Site) (r : Repository) (part : Option Text) (cause raw : Text)
      → lookup (to_lower site.domain) r.snap.domain_index ≡ none
      → codec.encode (create_site codec (write_fails part cause) site r).1.snap ≡ ok raw
      → (create_site codec (write_fails part cause) site r).0 ≡ err (write_tmp_state cause)
  unfolding create_site save replace_file
  create_site_fails codec site r part cause raw e h = ground arith

  pub create_site_taken :
      (codec : Codec) (o : Outcome) (site : Site) (r : Repository) (id : Text)
      → lookup (to_lower site.domain) r.snap.domain_index ≡ some id
      → create_site codec o site r ≡ (err conflict, r)
  unfolding create_site
  create_site_taken codec o site r id e = ground arith

  pub delete_site-snap :
      (codec : Codec) (o : Outcome) (id : Text) (site : Site) (r : Repository)
      → lookup id r.snap.sites ≡ some site
      → (delete_site codec o id r).1.snap ≡ record r.snap {
        domain_index = delete (to_lower site.domain) r.snap.domain_index;
        sites = delete id r.snap.sites;
      }
  unfolding delete_site
  delete_site-snap codec o id site r e =
      rw (e, delete_site) (save-snap codec o (record r { snap = _ }))

  -- When the write of the file fails, `create_site` of a free domain reports the error, and yet the
  -- site stays in memory: it is found by its identifier, and a later attempt to create a site of
  -- that domain, in whatever mixture of cases, is refused as a conflict.
  pub create_site_unsaved :
      (codec : Codec) (site again : Site) (r : Repository) (part : Option Text) (cause raw : Text)
      (o : Outcome)
      → lookup (to_lower site.domain) r.snap.domain_index ≡ none
      → codec.encode (create_site codec (write_fails part cause) site r).1.snap ≡ ok raw
      → to_lower again.domain ≡ to_lower site.domain
      → let t = (create_site codec (write_fails part cause) site r).1 in
        ((create_site codec (write_fails part cause) site r).0 ≡ err (write_tmp_state cause))
        × (get_site_by_id site.id t ≡ ok site)
        × (create_site codec o again t ≡ (err conflict, t))
  create_site_unsaved codec site again r part cause raw o e h same =
      let now = create_site-snap codec (write_fails part cause) site r e in
      (
        create_site_fails codec site r part cause raw e h,
        get_site_by_id_found site.id site _ (rw now (lookup-insert_self site.id site r.snap.sites)),
        create_site_taken codec o again _ site.id
            (rw (now, same) (lookup-insert_self _ site.id r.snap.domain_index)),
      )

  -- Deleting a stored site of a valid state makes its identifier unknown, and frees its domain: the
  -- next site that is created under the domain, in any mixture of cases, is found.
  pub delete_site_frees :
      (codec : Codec) (o o' : Outcome) (id : Text) (site next : Site) (r : Repository)
      → lookup id r.snap.sites ≡ some site
      → to_lower next.domain ≡ to_lower site.domain
      → let t = (delete_site codec o id r).1 in
        (get_site_by_id id t ≡ err not_found)
        × (get_site_by_id next.id (create_site codec o' next t).1 ≡ ok next)
  delete_site_frees codec o o' id site next r e same =
      let gone = delete_site-snap codec o id site r e in
      let t = (delete_site codec o id r).1 in
      let vacant : lookup (to_lower next.domain) t.snap.domain_index ≡ none =
        rw (gone, same) (lookup-delete_self _ r.snap.domain_index) in
      (
        get_site_by_id_missing id t (rw gone (lookup-delete_self id r.snap.sites)),
        get_site_by_id_found next.id next _ (
            rw (create_site-snap codec o' next t vacant)
              (lookup-insert_self next.id next t.snap.sites)),
      )
