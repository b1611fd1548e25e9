-- ===== src/Certificates/Issued.antt =====
-- What the success of `Issue` in internal/ssl/service.go says.
use nusantara_panel.Base.{
  ◌∙◌, sym, refl, ap, codes, List, Option-cases, Option-cases, ap, List, Text, true, none, Result,
  ok, err, ◌≡◌, ◌⊎◌, Bool-cases, inl, inr, Unicode, to_lower, trim_space,
}
use nusantara_panel.Certificates.{
  request, after_issue, answer, Ran, install, Host, Service, Error, is_valid_domain, is_email,
  issue, issue_command_args, certificate_exists, temp_checkpoint, install_args,
}

module _ {F : Type 0} (host : Host F) where
  -- The command was asked for a certificate and did not fail, or left one in place all the same; then
  -- it was asked to install it, and did not fail.
  pub record IsIssued (s : Service) (domain email : Text) (f g : F) : Type 0 where
    pub at : F
    pub valid_domain : is_valid_domain domain ≡ true
    pub valid_email : is_email email ≡ true
    pub asked : (host.run s.certbot_command (issue_command_args host domain email f) f).1 ≡ at
    pub granted :
        ((host.run s.certbot_command (issue_command_args host domain email f) f).0.failure ≡ none)
        ⊎ (certificate_exists host domain at ≡ true)
    pub installed : (host.run s.certbot_command (install_args domain) at).0.failure ≡ none
    pub left : (host.run s.certbot_command (install_args domain) at).1 ≡ g

module _ ⦃u : Unicode⦄ {F : Type 0} (host : Host F) (s : Service) (domain email : Text) where
  answer-ok :
      (context command : Text) (args : List Text) (ran : Ran)
      → answer host context command args ran ≡ ok tt
      → ran.failure ≡ none
  answer-ok context command args ran h = elim (Option-cases ran.failure) [
    | inl e ↦ e
    | inr (cause, e) ↦ absurd (cc (rw e at h))
  ]

  install-IsIssued :
      (f at g : F)
      → is_valid_domain domain ≡ true
      → is_email email ≡ true
      → (host.run s.certbot_command (issue_command_args host domain email f) f).1 ≡ at
      → ((host.run s.certbot_command (issue_command_args host domain email f) f).0.failure ≡ none)
        ⊎ (certificate_exists host domain at ≡ true)
      → install host s domain at ≡ (ok tt, g)
      → IsIssued host s domain email f g
  install-IsIssued f at g d m a b h = record {
    at = at;
    valid_domain = d;
    valid_email = m;
    asked = a;
    granted = b;
    installed =
        answer-ok (codes "install cert: ") s.certbot_command (install_args domain)
          (host.run s.certbot_command (install_args domain) at).0 (ap (λ p. p.0) h);
    left = ap (λ p. p.1) h;
  }

  after_issue-IsIssued :
      (f g : F) (res : Result Error (Unit {0}))
      → is_valid_domain domain ≡ true
      → is_email email ≡ true
      → (let (ran, at) = host.run s.certbot_command (issue_command_args host domain email f) f in
          (answer host
              (codes "issue cert: ")
              s.certbot_command
              (issue_command_args host domain email f)
              ran
            ≡ res)
          → after_issue host s domain res at ≡ (ok tt, g)
          → IsIssued host s domain email f g)
  after_issue-IsIssued f g (ok _) d m e h =
      install-IsIssued f _ g d m refl
        (inl (
          answer-ok (codes "issue cert: ") s.certbot_command
            (issue_command_args host domain email f)
            (host.run s.certbot_command (issue_command_args host domain email f) f).0 e))
        h
  after_issue-IsIssued f g (err cause) d m e h =
      let at = (host.run s.certbot_command (issue_command_args host domain email f) f).1 in
      elim (Bool-cases (certificate_exists host domain at)) [
        | inl there ↦ install-IsIssued f at g d m refl (inr there) (rw there at h)
        | inr gone ↦ absurd (cc (rw gone at h))
      ]

module _ ⦃u : Unicode⦄ {F : Type 0} (host : Host F) (s : Service) (domain email : Text) where
  issue-request :
      (f : F)
      → s.apply ≡ true
      → is_valid_domain (to_lower (trim_space domain)) ≡ true
      → is_email (trim_space email) ≡ true
      → issue host s domain email f
        ≡ request host s
            (to_lower (trim_space domain))
            (trim_space email)
            (host.remove_all temp_checkpoint f)
  unfolding issue
  issue-request f on d m = simp (on, d, m)

  issue_checked :
      (f g : F)
      → issue host s domain email f ≡ (ok tt, g)
      → (is_valid_domain (to_lower (trim_space domain)) ≡ true)
        × (is_email (trim_space email) ≡ true)
  unfolding issue
  issue_checked f g h = elim (Bool-cases (is_valid_domain (to_lower (trim_space domain)))) [
    | inr bad ↦ absurd (cc (rw bad at h))
    | inl d ↦ elim (Bool-cases (is_email (trim_space email))) [
      | inr bad ↦ absurd (cc (rw (d, bad) at h))
      | inl m ↦ (d, m)
    ]
  ]

  -- When certificates are really asked for, a success was preceded by the checks of the domain and of
  -- the address, in the form in which the command got them, and was earned: the certificate was
  -- granted, or was already there, and was installed.
  pub issue-IsIssued :
      (f g : F)
      → s.apply ≡ true
      → issue host s domain email f ≡ (ok tt, g)
      → IsIssued host s
          (to_lower (trim_space domain))
          (trim_space email)
          (host.remove_all temp_checkpoint f)
          g
  issue-IsIssued f g on h =
      let (d, m) = issue_checked f g h in
      after_issue-IsIssued host s (to_lower (trim_space domain)) (trim_space email)
        (host.remove_all temp_checkpoint f) g _ d m refl (sym (issue-request f on d m) ∙ h)
