-- ===== src/Certificates/Tests.antt =====
-- A certificate for one domain.
use nusantara_panel.Base.{
  pos, codes, [], none, true, false, ◌≡◌, refl, text_eq, ascii_tables, to_lower, trim_space,
}
use nusantara_panel.Certificates.{Host, Service, issue, is_valid_domain, is_email}
use nusantara_panel.Certificates.Issued.{IsIssued, issue-IsIssued}

abbrev service : Service
service = record { apply = true; certbot_command = codes "certbot"; timeout = pos 0 }

abbrev host : Host (Unit {0})
host = record {
  run = λ command args f. (record { output = []; failure = none }, f);
  stat = λ path f. none;
  remove_all = λ path f. f;
}

domain_tests :
    (is_valid_domain (codes "-a.id") ≡ false)
    × (is_valid_domain (codes "a..id") ≡ false)
    × (is_email (codes "a@b.id") ≡ true)
    × (is_email (codes "a@b") ≡ false)
    × (is_email (codes "a@b.c@d.e") ≡ false)
unfolding is_valid_domain is_email
domain_tests = (refl, refl, refl, refl, refl)

issue-IsIssued_example : IsIssued host service (codes "a.id") (codes "m@a.id") tt tt
unfolding issue is_valid_domain is_email trim_space to_lower text_eq
issue-IsIssued_example =
    issue-IsIssued host service (codes "A.id ") (codes "m@a.id") tt tt refl refl
