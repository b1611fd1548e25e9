-- ===== src/Store/FileDb/Tests.antt =====
-- The repository on a concrete state.
use nusantara_panel.Store.FileDb.Rebuild.{domain_key, username_key, HasUniqueKeys}
use nusantara_panel.Base.{
  pos, Text, codes, true, some, none, [], ◌∷◌, ◌≡◌, refl, ok, err, Result, ascii_tables, to_lower,
  List,
}
use nusantara_panel.Store.{Site, User, conflict, not_found, write_tmp_state}
use mathlib.Core.Logic.{ite, if_neg}
use nusantara_panel.Base.Table.{lookup, insert, delete}
use nusantara_panel.Store.FileDb.Methods.{
  or_not_found, list_sites, create_user, create_site, delete_site, get_user_by_username,
  get_site_by_id,
}
use nusantara_panel.Store.FileDb.Directory.{view, direct_all, run-refines}
use nusantara_panel.Store.FileDb.Calls.{Call, creates_site, creates_user, deletes_site, apply}
use nusantara_panel.Store.FileDb.Invariant.Steps.{run, new_snapshot-IsValid}
use nusantara_panel.Store.FileDb.Accounts.{run_unique, create_site_unsaved, delete_site_frees}
use nusantara_panel.Store.FileDb.Durability.{IsAtomic, apply-IsAtomic, SameState, load-apply}
use native.Mathlib.Decide.{ℕ_discrete}
use nusantara_panel.Store.FileDb.Snapshot.{
  readable, load, replace_file, save, Decoded, Snapshot, Repository, Codec, Outcome, saved,
  write_fails, decoded, new_snapshot,
}

unfoldable pub Snapshot-discrete : Discrete Snapshot
Snapshot-discrete = hlevel ℕ_discrete

-- A codec for one snapshot, which it writes as the empty text.
pub one_snapshot-law :
    (s₀ s : Snapshot) (raw : Text)
    → true ≡ true
    → ite (Snapshot-discrete s s₀) (ok []) (err (codes "unknown")) ≡ ok raw
    → ◌≡◌ {A = Result Text Decoded} (ok (decoded s₀)) (ok (decoded s))
one_snapshot-law s₀ s raw plain h = elim (Snapshot-discrete s s₀) [
  | yes e ↦ rw e refl
  | no ne ↦ absurd (
      cc
        (if_neg {C = Result Text Text} (Snapshot-discrete s s₀) ne (ok []) (err (codes "unknown"))))
]

abbrev pub one_snapshot : Snapshot → Codec
one_snapshot s₀ = record {
  encode = λ s. ite (Snapshot-discrete s s₀) (ok []) (err (codes "unknown"));
  decode = λ raw. ok (decoded s₀);
  plain = λ s. true;
  decode-encode = one_snapshot-law s₀;
}

abbrev pub empty_repository : Repository
empty_repository = record {
  path = codes "/state";
  snap = new_snapshot;
  disk = record { state = none; tmp = none };
}

abbrev pub blog : Site
blog = record {
  id = codes "s1";
  domain = codes "Blog.id";
  root_path = codes "/srv/b";
  runtime = codes "php";
  status = codes "active";
  created_by = codes "u1";
  created_at = 5;
  updated_at = 5;
}

abbrev pub admin : User
admin = record {
  id = codes "u1";
  username = codes "Ann";
  password_hash = codes "h";
  role = codes "admin";
  is_active = true;
  created_at = 1;
  updated_at = 1;
}

abbrev history : List (Outcome × Call)
history =
    (write_fails none (codes "disk full"), creates_site blog)
    ∷ (saved, creates_user admin)
    ∷ (saved, deletes_site (codes "s1"))
    ∷ []

abbrev blog_state : Snapshot
blog_state = record new_snapshot {
  sites = (codes "s1", blog) ∷ [];
  domain_index = (codes "blog.id", codes "s1") ∷ [];
}

abbrev pub blog_codec : Codec
blog_codec = one_snapshot blog_state

run_unique_example :
    HasUniqueKeys username_key (run blog_codec history empty_repository).snap.users
    × HasUniqueKeys domain_key (run blog_codec history empty_repository).snap.sites
unfolding apply create_site create_user delete_site save replace_file lookup insert delete to_lower
    Snapshot-discrete ℕ_discrete
run_unique_example =
    run_unique blog_codec history empty_repository new_snapshot-IsValid (refl, (refl, (tt, tt)))

create_site_unsaved_example :
    let t = (create_site blog_codec (write_fails none (codes "full")) blog empty_repository).1 in
    ((create_site blog_codec (write_fails none (codes "full")) blog empty_repository).0
      ≡ err (write_tmp_state (codes "full")))
    × (get_site_by_id (codes "s1") t ≡ ok blog)
    × (create_site blog_codec saved blog t ≡ (err conflict, t))
unfolding create_site save replace_file lookup insert to_lower ℕ_discrete Snapshot-discrete
create_site_unsaved_example =
    create_site_unsaved blog_codec blog blog empty_repository none (codes "full") [] saved refl refl
      refl

abbrev blog_repository : Repository
blog_repository = record empty_repository { snap = blog_state }

delete_site_frees_example :
    let t = (delete_site blog_codec saved (codes "s1") blog_repository).1 in
    (get_site_by_id (codes "s1") t ≡ err not_found)
    × (get_site_by_id (codes "s1") (create_site blog_codec saved blog t).1 ≡ ok blog)
unfolding lookup
delete_site_frees_example =
    delete_site_frees blog_codec saved saved (codes "s1") blog blog blog_repository refl refl

apply-IsAtomic_example :
    IsAtomic blog_codec empty_repository
      (apply blog_codec saved (creates_site blog) empty_repository)
apply-IsAtomic_example = apply-IsAtomic blog_codec saved (creates_site blog) empty_repository

abbrev saved_blog : Repository
saved_blog = record {
  path = codes "/state";
  snap = new_snapshot;
  disk = record { state = some []; tmp = none };
}

load-apply_example :
    ((load blog_codec readable saved saved_blog).0 ≡ ok tt)
    × SameState
        (apply blog_codec saved (creates_site blog) empty_repository).1.snap
        (load blog_codec readable saved saved_blog).1.snap
unfolding apply create_site save replace_file lookup insert to_lower ℕ_discrete Snapshot-discrete
load-apply_example =
    load-apply blog_codec saved saved (creates_site blog) empty_repository saved_blog
      new_snapshot-IsValid refl refl refl refl

abbrev shop : Site
shop = record blog { id = codes "s2"; created_at = 9 }

abbrev two_sites : Repository
two_sites = record empty_repository {
  snap = record new_snapshot { sites = (codes "s1", blog) ∷ (codes "s2", shop) ∷ [] };
}

list_newest : list_sites (pos 1) two_sites ≡ shop ∷ []
unfolding list_sites
list_newest = refl

run-refines_example :
    get_user_by_username (codes "aNN") (run blog_codec history empty_repository)
    ≡ or_not_found (direct_all history (view new_snapshot) (codes "ann"))
unfolding apply create_site create_user delete_site save replace_file lookup insert delete to_lower
    Snapshot-discrete ℕ_discrete
run-refines_example =
    run-refines blog_codec history empty_repository (codes "aNN") new_snapshot-IsValid
      (refl, (refl, (tt, tt)))
