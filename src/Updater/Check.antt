-- ===== src/Updater/Check.antt =====
-- `Check` of internal/updater/service.go.
use nusantara_panel.Base.{
  has_prefix, words, not, to_lower, text_eq, List, ◌∷◌, ◌++◌, [], none, some, true, false,
  if◌then◌else◌, ◌||◌, Text, codes, Result, ok, err, Unicode, trim_space,
}
use nusantara_panel.Store.{Time}
use nusantara_panel.Updater.{
  disabled, validate_config, looks_like_commit, failed, Config, Service, Error, CheckResult,
}
use nusantara_panel.Updater.System.{Host, Ran}

-- The end of a command that must succeed, in the words of the failure.
abbrev output_or {ℓ} :
    {A : Type ℓ} → (Text → Text → Error) → (Text → Result Error A) → Ran → Result Error A
output_or wrong next ran = elim ran.failure [
  | none ↦ next ran.output
  | some cause ↦ err (wrong cause ran.output)
]

module _ ⦃u : Unicode⦄ {F : Type 0} (host : Host F) where
  abbrev remote_commit : List Text → Result Error Text
  remote_commit [] = err (failed (codes "check remote commit: invalid response"))
  remote_commit (first ∷ _) =
      if looks_like_commit first
      then ok (to_lower first)
      else err (failed (codes "check remote commit: invalid response"))

  abbrev commit_line : Config → Text → Result Error Text
  commit_line c line =
      if text_eq line []
      then err (failed (codes "check remote commit: no ref found for branch " ++ c.branch))
      else remote_commit (words [] line)

  unfoldable pub read_remote_commit : Config → F → Result Error Text × F
  unfolding looks_like_commit
  read_remote_commit c f =
      let (ran, g) =
        host.run
          (codes "git"
            ∷ codes "ls-remote"
            ∷ codes "--heads"
            ∷ c.repo_url
            ∷ (codes "refs/heads/" ++ c.branch)
            ∷ [])
          f in
      (
        output_or
            (λ cause out.
              failed (codes "check remote commit: " ++ cause ++ codes ": " ++ trim_space out))
            (λ out. commit_line c (trim_space out)) ran,
        g,
      )

  -- What the commit of the build and the one of the repository say. `version` and `commit` are the
  -- values that the build sets.
  abbrev compared : Config → Time → Text → Text → Text → CheckResult
  compared c at version current remote =
      let blank : CheckResult = record {
        repo_url = c.repo_url;
        branch = c.branch;
        current_version = version;
        current_commit = current;
        remote_commit = remote;
        status = codes "unknown";
        up_to_date = false;
        update_available = false;
        note = [];
        last_checked_at = at;
      } in
      if not (looks_like_commit current)
      then record blank {
        note = codes "current commit is unavailable, run update to refresh build metadata";
      }
      else if has_prefix remote current || has_prefix current remote
      then record blank { status = codes "up_to_date"; up_to_date = true }
      else record blank { status = codes "update_available"; update_available = true }

  abbrev checked :
      Config → Time → Text → Text → Result Error Text × F → Result Error CheckResult × F
  checked c at version commit (err e, f) = (err e, f)
  checked c at version commit (ok remote, f) =
      (ok (compared c at (trim_space version) (to_lower (trim_space commit)) remote), f)

  unfoldable pub check : Service → Time → Text → Text → F → Result Error CheckResult × F
  unfolding validate_config read_remote_commit looks_like_commit has_prefix
  check s at version commit f =
      if not s.enabled then (err disabled, f) else elim (validate_config host.is_uri s.cfg) [
        | err e ↦ (err e, f)
        | ok _ ↦ checked s.cfg at version commit (read_remote_commit s.cfg f)
      ]
