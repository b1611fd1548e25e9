-- ===== src/Sites/Tests.antt =====
-- The service of the sites on concrete input.
pub mod Archiving
use nusantara_panel.Base.{
  arith, Text, codes, [], ◌∷◌, ◌≡◌, ◌⊎◌, refl, ok, err, some, none, Result, List, join,
  ascii_tables, text_eq, has_prefix, has_suffix, contains, split, replace_all, trim_prefix,
  trim_suffix, trim_space, to_lower, true, false, if◌then◌else◌,
}
use mathlib.Core.Logic.{ite, if_neg, if_pos}
use nusantara_panel.Base.Table.{Table, lookup, insert, delete}
use nusantara_panel.Store.{
  Site, Job, job_type_provision_site, job_status_queued, site_status_provisioning,
}
use native.Mathlib.Decide.{ℕ_discrete}
use nusantara_panel.Store.FileDb.Snapshot.{
  Snapshot, Decoded, Repository, Codec, save, replace_file, saved, new_snapshot, decoded,
}
use nusantara_panel.Store.FileDb.Methods
use nusantara_panel.Store.FileDb.Methods.{create_job, get_site_by_id}
use nusantara_panel.Store.FileDb.Tests.{Snapshot-discrete, empty_repository, blog}
use nusantara_panel.Jobs.{serving, Config, sends, enqueue}
use nusantara_panel.Jobs.Tests.{bare_payloads}
use nusantara_panel.Sites.{is_valid_domain, normalize_domain}
use nusantara_panel.Sites.Paths.{
  clean, clean_segments, is_valid_root_path, normalize_relative_path, join_path, is_within_root,
  dir,
}
use nusantara_panel.Sites.Lifecycle.{CreateSiteInput, Env, create_site}
use nusantara_panel.Sites.Created.{Created, create_site-Created}
use nusantara_panel.Sites.Files.{Os, not_exist, upload_site_file}
use nusantara_panel.Sites.Contained.{
  ArePlain, normalize_relative_path-ArePlain, Uploaded, upload_site_file-Uploaded,
}

normalize_relative_path-ArePlain_example :
    (codes "a/b" ≡ []) ⊎ ((ps : List Text) × ArePlain ps × (codes "a/b" ≡ join ps b'/'))
unfolding normalize_relative_path trim_space replace_all has_prefix split clean clean_segments join
    text_eq contains trim_prefix
normalize_relative_path-ArePlain_example =
    normalize_relative_path-ArePlain (codes " a\\./b/ ") (codes "a/b") false refl

abbrev pub memory : Os (Table Text)
memory = record {
  stat =
      λ path files. elim (lookup path files) [ none ↦ err (not_exist path) | some text ↦ ok false ];
  read_file =
      λ path files. elim (lookup path files) [ none ↦ err (not_exist path) | some text ↦ ok text ];
  write_file = λ path text files. (ok tt, insert path text files);
  mkdir_all = λ path files. (ok tt, files);
  remove = λ path files. (ok tt, delete path files);
  remove_all = λ path files. (ok tt, delete path files);
}

abbrev pub one_site : Repository
one_site = record empty_repository {
  snap = record new_snapshot { sites = (codes "s1", blog) ∷ [] };
}

upload_site_file-Uploaded_example :
    Uploaded memory
      (λ s. some s)
      (codes "s1")
      (codes "css/a.css")
      (codes "body")
      one_site
      []
      blog
      (codes "css/a.css")
      4
      ((codes "/srv/b/css/a.css", codes "body") ∷ [])
unfolding upload_site_file get_site_by_id normalize_relative_path trim_space replace_all has_prefix
    split clean clean_segments join text_eq contains trim_prefix lookup insert join_path
    is_within_root dir
upload_site_file-Uploaded_example =
    upload_site_file-Uploaded memory (λ s. some s) (codes "s1") (codes "css/a.css") (codes "body")
      one_site [] ((codes "/srv/b/css/a.css", codes "body") ∷ []) blog (codes "css/a.css") 4 refl

-- A codec for two snapshots.
abbrev encode_two : Snapshot → Snapshot → Snapshot → Result Text Text
encode_two s₀ s₁ s =
    ite (Snapshot-discrete s s₀) (ok [])
      (ite (Snapshot-discrete s s₁) (ok (1 ∷ [])) (err (codes "unknown")))

abbrev decode_two : Snapshot → Snapshot → Text → Result Text Decoded
decode_two s₀ s₁ raw = if text_eq raw [] then ok (decoded s₀) else ok (decoded s₁)

two_snapshots-law :
    (s₀ s₁ s : Snapshot) (raw : Text)
    → true ≡ true
    → encode_two s₀ s₁ s ≡ ok raw
    → decode_two s₀ s₁ raw ≡ ok (decoded s)
unfolding text_eq
two_snapshots-law s₀ s₁ s raw plain h = elim (Snapshot-discrete s s₀) [
  | yes e ↦
      let first : [] ≡ raw = ground (
        arith,
        if_pos {C = Result Text Text} (Snapshot-discrete s s₀) e (ok [])
            (ite (Snapshot-discrete s s₁) (ok (1 ∷ [])) (err (codes "unknown"))),
      ) in
      rw (← first, e) refl
  | no ne ↦
      let next =
        if_neg {C = Result Text Text} (Snapshot-discrete s s₀) ne (ok [])
          (ite (Snapshot-discrete s s₁) (ok (1 ∷ [])) (err (codes "unknown"))) in
      elim (Snapshot-discrete s s₁) [
        | yes e ↦
            let second : 1 ∷ [] ≡ raw = ground (
              arith,
              next,
              if_pos {C = Result Text Text} (Snapshot-discrete s s₁) e (ok (1 ∷ []))
                  (err (codes "unknown")),
            ) in
            rw (← second, e) refl
        | no ne' ↦ absurd (
            cc (
              next,
              if_neg {C = Result Text Text} (Snapshot-discrete s s₁) ne' (ok (1 ∷ []))
                  (err (codes "unknown")),
            ))
      ]
]

abbrev two_snapshots : Snapshot → Snapshot → Codec
two_snapshots s₀ s₁ = record {
  encode = encode_two s₀ s₁;
  decode = decode_two s₀ s₁;
  plain = λ s. true;
  decode-encode = two_snapshots-law s₀ s₁;
}

abbrev wiki : Site
wiki = record {
  id = codes "s7";
  domain = codes "wiki.id";
  root_path = codes "/srv/wiki";
  runtime = codes "php";
  status = site_status_provisioning;
  created_by = codes "u1";
  created_at = 40;
  updated_at = 40;
}

abbrev wiki_job : Job
wiki_job = record {
  id = codes "j7";
  type = job_type_provision_site;
  status = job_status_queued;
  payload = codes "s7";
  error = [];
  started_at = none;
  finished_at = none;
  created_at = 41;
  triggered_by = codes "u1";
}

abbrev with_wiki : Snapshot
with_wiki = record new_snapshot {
  sites = (codes "s7", wiki) ∷ [];
  domain_index = (codes "wiki.id", codes "s7") ∷ [];
}

abbrev with_wiki_job : Repository
with_wiki_job = record empty_repository {
  snap = record with_wiki { jobs = (codes "j7", wiki_job) ∷ [] };
  disk = record { state = some (1 ∷ []); tmp = none };
}

abbrev config : Config
config = record {
  codec = two_snapshots with_wiki with_wiki_job.snap;
  payloads = bare_payloads;
  provisioner = none;
}

abbrev env : Env
env = record {
  now = 40;
  job_now = 41;
  failed_now = 42;
  site_id = ok (codes "s7");
  job_id = ok (codes "j7");
  site_save = saved;
  job_save = saved;
  failed_save = saved;
  how = sends;
}

abbrev asked : CreateSiteInput
asked = record { domain = codes "Wiki.id."; root_path = codes "/srv/wiki"; runtime = codes "PHP" }

create_site-Created_example :
    Created config env
      (codes "u1")
      wiki
      wiki_job
      (record { queue = []; started = true; stopped = false; worker = serving })
      (record { queue = codes "j7" ∷ []; started = true; stopped = false; worker = serving })
      with_wiki_job
unfolding create_site is_valid_domain normalize_domain is_valid_root_path clean clean_segments
    enqueue Methods.create_site create_job save replace_file lookup insert text_eq has_prefix
    has_suffix contains split join trim_suffix trim_space to_lower Snapshot-discrete ℕ_discrete
create_site-Created_example =
    create_site-Created config env (codes "u1") asked
      (record { queue = []; started = true; stopped = false; worker = serving }) empty_repository
      wiki wiki_job
      (record { queue = codes "j7" ∷ []; started = true; stopped = false; worker = serving })
      with_wiki_job refl
