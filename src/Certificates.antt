-- ===== src/Certificates.antt =====
-- internal/ssl/service.go: the certificates of sites, by the command certbot. Running a command, what
-- stands at a path, and the removal of a directory are parameters.
pub mod Issued
mod Tests
use nusantara_panel.Base.{
  negsuc, ◌^◌, ◌*◌, pos, ◌&&◌, ℤ, not, ◌||◌, join, ◌==◌, ℕ, Text, codes, [], ◌∷◌, ◌++◌, List, Bool,
  true, false, Option, none, some, Result, ok, err, text_eq, ltb, length, all, any, has_prefix,
  has_suffix, contains, split, cut, if◌then◌else◌, Unicode, to_lower, trim_space, is_upper,
  is_lower, is_digit,
}
use nusantara_panel.Sites.Paths.{join_path}
use nusantara_panel.Updater.System.{Ran}

-- A machine of states `F`: a command with its arguments, whether there is a directory at a path, or
-- something else, and the removal of all below a path, whose error is not looked at.
pub record Host (F : Type 0) : Type 0 where
  pub run : Text → List Text → F → Ran × F
  pub stat : Text → F → Option Bool
  pub remove_all : Text → F → F

-- Times are in nanoseconds.
pub record Service : Type 0 where
  pub apply : Bool
  pub certbot_command : Text
  pub timeout : ℤ

pub data Error : Type 0 where
  invalid_domain invalid_email : Error
  failed : Text → Error

abbrev is_short : ℤ → Bool
is_short (pos n) = ltb n (10 * 10 ^ 9)
is_short (negsuc n) = true

module _ ⦃u : Unicode⦄ where
  unfoldable pub new_service : Bool → Text → ℤ → Service
  new_service apply certbot_command timeout = record {
    apply = apply;
    certbot_command =
        if text_eq (trim_space certbot_command) [] then codes "certbot" else certbot_command;
    timeout = if is_short timeout then pos (120 * 10 ^ 9) else timeout;
  }

-- domainPattern
abbrev is_domain_text : Text → Bool
is_domain_text s =
    not (text_eq s [])
    && all (λ c. is_upper c || is_lower c || is_digit c || c == b'.' || c == b'-') s

abbrev is_part : Text → Bool
is_part p = not (text_eq p [] || has_prefix p (codes "-") || has_suffix p (codes "-"))

unfoldable pub is_valid_domain : Text → Bool
unfolding text_eq has_prefix has_suffix contains split
is_valid_domain domain =
    if ltb (length domain) 3 || ltb 253 (length domain)
    then false
    else if has_prefix domain (codes ".")
        || has_suffix domain (codes ".")
        || contains domain (codes "..")
    then false
    else if not (is_domain_text domain)
    then false
    else if ltb (length (split domain b'.')) 2
    then false
    else all is_part (split domain b'.')

-- Neither `@` nor white space: `[^@\s]`
abbrev is_email_byte : ℕ → Bool
is_email_byte c = not (c == b'@' || c == 32 || c == 9 || c == 10 || c == 12 || c == 13)

-- A dot with something behind it
abbrev has_dot : Text → Bool
has_dot [] = false
has_dot (c ∷ s) = (c == b'.' && not (text_eq s [])) || has_dot s

abbrev has_inner_dot : Text → Bool
has_inner_dot [] = false
has_inner_dot (c ∷ s) = has_dot s

-- emailPattern
unfoldable pub is_email : Text → Bool
unfolding cut text_eq
is_email s = elim (cut s b'@') [
  | none ↦ false
  | some (user, domain) ↦
      not (text_eq user [])
      && all is_email_byte user
      && all is_email_byte domain
      && has_inner_dot domain
]

module _ {F : Type 0} (host : Host F) where
  unfoldable pub default_webroot_for_domain : Text → F → Text
  default_webroot_for_domain domain f =
      let root = join_path (codes "/var/www") (domain ++ codes "/public") in
      elim (host.stat root f) [ none ↦ [] | some is_dir ↦ if is_dir then root else [] ]

  unfoldable pub issue_command_args : Text → Text → F → List Text
  unfolding default_webroot_for_domain
  issue_command_args domain email f =
      let webroot = default_webroot_for_domain domain f in
      let args =
        codes "certonly"
        ∷ codes "-d"
        ∷ domain
        ∷ codes "--non-interactive"
        ∷ codes "--agree-tos"
        ∷ codes "-m"
        ∷ email
        ∷ [] in
      if text_eq webroot []
      then args ++ (codes "--nginx" ∷ [])
      else args ++ (codes "--webroot" ∷ codes "-w" ∷ webroot ∷ [])

  abbrev is_there : Option Bool → Bool
  is_there none = false
  is_there (some is_dir) = true

  unfoldable pub certificate_exists : Text → F → Bool
  certificate_exists domain f =
      is_there
        (host.stat (join_path (codes "/etc/letsencrypt/live") (domain ++ codes "/fullchain.pem")) f)
      && is_there
          (host.stat (join_path (codes "/etc/letsencrypt/live") (domain ++ codes "/privkey.pem")) f)

abbrev pub install_args : Text → List Text
install_args domain =
    codes "install"
    ∷ codes "--cert-name"
    ∷ domain
    ∷ codes "--nginx"
    ∷ codes "--redirect"
    ∷ codes "--non-interactive"
    ∷ []

-- Arguments as `%v` prints them
abbrev printed : List Text → Text
printed args = codes "[" ++ join args 32 ++ codes "]"

abbrev pub temp_checkpoint : Text
temp_checkpoint = codes "/var/lib/letsencrypt/temp_checkpoint"

module _ ⦃u : Unicode⦄ {F : Type 0} (host : Host F) where
  -- runCommand, with the context that its callers add
  abbrev pub answer : Text → Text → List Text → Ran → Result Error (Unit {0})
  answer context command args ran = elim ran.failure [
    | none ↦ ok tt
    | some cause ↦ err (
        failed (
          context
          ++ command
          ++ codes " "
          ++ printed args
          ++ codes ": "
          ++ cause
          ++ codes " ("
          ++ trim_space ran.output
          ++ codes ")"))
  ]

  abbrev pub install : Service → Text → F → Result Error (Unit {0}) × F
  install s domain f =
      let (ran, g) = host.run s.certbot_command (install_args domain) f in
      (answer (codes "install cert: ") s.certbot_command (install_args domain) ran, g)

  abbrev pub after_issue :
      Service → Text → Result Error (Unit {0}) → F → Result Error (Unit {0}) × F
  after_issue s domain (ok _) f = install s domain f
  after_issue s domain (err e) f =
      if not (certificate_exists host domain f) then (err e, f) else install s domain f

  abbrev pub request : Service → Text → Text → F → Result Error (Unit {0}) × F
  request s domain email f =
      let args = issue_command_args host domain email f in
      let (ran, g) = host.run s.certbot_command args f in
      after_issue s domain (answer (codes "issue cert: ") s.certbot_command args ran) g

  unfoldable pub issue : Service → Text → Text → F → Result Error (Unit {0}) × F
  issue s given_domain given_email f =
      let domain = to_lower (trim_space given_domain) in
      let email = trim_space given_email in
      if not (is_valid_domain domain)
      then (err invalid_domain, f)
      else if not (is_email email)
      then (err invalid_email, f)
      else if not s.apply
      then (ok tt, f)
      else request s domain email (host.remove_all temp_checkpoint f)

  unfoldable pub renew : Service → F → Result Error (Unit {0}) × F
  renew s f =
      let args = codes "renew" ∷ codes "--non-interactive" ∷ [] in
      let (ran, g) = host.run s.certbot_command args f in
      if not s.apply
      then (ok tt, f)
      else (answer (codes "renew cert: ") s.certbot_command args ran, g)
