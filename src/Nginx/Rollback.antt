-- ===== src/Nginx/Rollback.antt =====
-- The activation of a site against what stood before it: on a machine whose calls do not fail, the
-- configuration and its link are replaced together, or left as they were.
use nusantara_panel.Base.{
  arith, Unicode, subst, Option, none, some, [], ◌∷◌, ◌++◌, Text, codes, Result, ok, err, ◌≡◌, refl,
  sym, ap, ◌≢◌,
}
use nusantara_panel.Machine.{◌>>◌, Io, Machine, Act}
use nusantara_panel.Nginx.{NginxConfig}
use nusantara_panel.Nginx.Steps.{
  read_link, read_conf, upsert_symlink-Reaches, symlink-Reaches, write_atomic-Reaches,
  remove_link-Reaches, remove_conf-Reaches, tmp, Shows, Reaches, saved,
}
use nusantara_panel.Nginx.Provision.{
  or_undo, restore_link, restore_conf, Exec, rollback, activate, run_command,
}

-- The target of an old link is not empty.
abbrev IsTarget : Option Text → Type 0
IsTarget none = Unit
IsTarget (some target) = target ≢ []

module _ (conf link_path : Text) (apart : conf ≢ link_path) (free : tmp conf ≢ link_path) where
  restore_conf-Reaches :
      (content : Text) (c l : Option Text) (m : Machine)
      → Shows conf link_path (some content) l m
      → Reaches conf link_path c l (restore_conf conf (saved c) m)
  restore_conf-Reaches content none l m k =
      remove_conf-Reaches conf link_path apart free (some content) l m k
  restore_conf-Reaches content (some old) l m k =
      write_atomic-Reaches conf link_path apart free old (some content) l m k

  restore_link-Reaches :
      (target : Text) (c l : Option Text) (m : Machine)
      → IsTarget l
      → Shows conf link_path c (some target) m
      → Reaches conf link_path c l (restore_link link_path (saved l) m)
  restore_link-Reaches target c none m h k =
      remove_link-Reaches conf link_path apart free c (some target) m k
  restore_link-Reaches target c (some []) m h k = absurd (h refl)
  restore_link-Reaches target c (some (b ∷ old)) m h k =
      let (m1, e1, k1) = remove_link-Reaches conf link_path apart free c (some target) m k in
      let (m2, e2, k2) = symlink-Reaches conf link_path apart free (b ∷ old) c m1 k1 in
      (m2, rw e1 e2, k2)

  rollback-Reaches :
      (content target : Text) (c l : Option Text) (m : Machine)
      → IsTarget l
      → Shows conf link_path (some content) (some target) m
      → Reaches conf link_path c l (rollback conf link_path (saved c) (saved l) m)
  unfolding rollback
  rollback-Reaches content target c l m h k =
      let (m1, e1, k1) = restore_conf-Reaches content c (some target) m k in
      let (m2, e2, k2) = restore_link-Reaches target c l m1 h k1 in (m2, rw e1 e2, k2)

-- What the activation answers and leaves, from what the two commands answer: `old` is what it leaves
-- when one of them fails.
abbrev pub Verdict :
    (Machine → Type 0)
    → Result Text (Unit {0}) × Machine
    → Machine
    → Result Text (Unit {0})
    → Result Text (Unit {0})
    → Type 0
Verdict old res new (ok _) (ok _) = res ≡ (ok tt, new)
Verdict old res new (ok _) (err e) =
    (m : Machine) × (res ≡ (err (codes "nginx reload failed: " ++ e), m)) × old m
Verdict old res new (err e) reload =
    (m : Machine) × (res ≡ (err (codes "nginx test failed: " ++ e), m)) × old m

module _ ⦃u : Unicode⦄ where
  command_keeps : (exec : Exec) (raw : Text) (m : Machine) → (run_command exec raw m).1 ≡ m
  unfolding run_command
  command_keeps exec raw m = ground arith

  pub command_result :
      (exec : Exec) (raw : Text) (m : Machine)
      → run_command exec raw m ≡ ((run_command exec raw m).0, m)
  command_result exec raw m = ap (λ n. ((run_command exec raw m).0, n)) (command_keeps exec raw m)

  module _ (c : NginxConfig) (exec : Exec) (conf link_path content : Text)
      (apart : conf ≢ link_path) (free : tmp conf ≢ link_path) where
    abbrev undo : Option Text → Option Text → Io (Unit {0})
    undo old_conf old_link = rollback conf link_path (saved old_conf) (saved old_link)

    abbrev commands : Option Text → Option Text → Act Text (Unit {0})
    commands old_conf old_link = do
      or_undo (codes "nginx test failed: ") (undo old_conf old_link)
          (run_command exec c.test_command)
      or_undo (codes "nginx reload failed: ") (undo old_conf old_link)
          (run_command exec c.reload_command)

    Verdict-commands :
        (old_conf old_link : Option Text) (m : Machine) (test reload : Result Text (Unit {0}))
        → IsTarget old_link
        → Shows conf link_path (some content) (some conf) m
        → run_command exec c.test_command m ≡ (test, m)
        → run_command exec c.reload_command m ≡ (reload, m)
        → Verdict
            (Shows conf link_path old_conf old_link)
            (commands old_conf old_link m)
            m
            test
            reload
    Verdict-commands old_conf old_link m (ok _) (ok _) h k et er = rw et (rw er refl)
    Verdict-commands old_conf old_link m (ok _) (err e) h k et er =
        let (m1, e1, k1) =
          rollback-Reaches conf link_path apart free content conf old_conf old_link m h k in
        (m1, rw et (rw er (rw e1 refl)), k1)
    Verdict-commands old_conf old_link m (err e) reload h k et er =
        let (m1, e1, k1) =
          rollback-Reaches conf link_path apart free content conf old_conf old_link m h k in
        (m1, rw et (rw e1 refl), k1)

    activate-commands :
        (old_conf old_link : Option Text) (m : Machine)
        → Shows conf link_path old_conf old_link m
        → (new : Machine) × Shows conf link_path (some content) (some conf) new
          × (activate c exec conf link_path content m ≡ commands old_conf old_link new)
    unfolding activate
    activate-commands old_conf old_link m k =
        let (m1, e1, k1) =
          write_atomic-Reaches conf link_path apart free content old_conf old_link m k in
        let (m2, e2, k2) =
          upsert_symlink-Reaches conf link_path apart free (some content) old_link m1 k1 in
        (
          m2,
          k2,
          rw (read_conf conf link_path apart free old_conf old_link m k)
              (rw (read_link conf link_path apart free old_conf old_link m k) (rw e1 (rw e2 refl))),
        )

    -- On a machine where the configuration and its link stand apart, nothing is in the way and no
    -- call of the system fails, activation answers by the two commands, which are run after the new
    -- text and the new link have been put in place: when both succeed, that machine is left; when one
    -- fails, its error is given with its context, and the text and the link are as before.
    pub activate-restores :
        (old_conf old_link : Option Text) (m : Machine)
        → IsTarget old_link
        → Shows conf link_path old_conf old_link m
        → (new : Machine) × Shows conf link_path (some content) (some conf) new
          × Verdict
              (Shows conf link_path old_conf old_link)
              (activate c exec conf link_path content m)
              new
              (run_command exec c.test_command new).0
              (run_command exec c.reload_command new).0
    activate-restores old_conf old_link m h k =
        let (new, k1, e) = activate-commands old_conf old_link m k in
        (
          new,
          k1,
          subst
              (λ res.
                Verdict (Shows conf link_path old_conf old_link) res new
                  (run_command exec c.test_command new).0 (run_command exec c.reload_command new).0)
              (sym e)
              (Verdict-commands old_conf old_link new (run_command exec c.test_command new).0
                (run_command exec c.reload_command new).0 h k1
                (command_result exec c.test_command new)
                (command_result exec c.reload_command new)),
        )
