-- ===== src/Nginx/Removal.antt =====
-- Taking a site out of service, on a machine whose calls do not fail.
use nusantara_panel.Base.{
  codes, none, Text, Option, true, [], ok, err, Result, ◌≡◌, ◌≢◌, refl, Unicode, text_eq-false,
}
use nusantara_panel.Store.{Site}
use nusantara_panel.Nginx.{NginxConfig}
use nusantara_panel.Machine.{◌>>◌, Machine, Act}
use nusantara_panel.Nginx.Steps.{tmp, Shows, remove_conf-Reaches, remove_link-Reaches}
use nusantara_panel.Nginx.Provision.{
  prefixed, Exec, run_command, deprovision_site, conf_path, link_path,
}
use nusantara_panel.Nginx.Rollback.{Verdict, command_result}

module _ ⦃u : Unicode⦄ (c : NginxConfig) (exec : Exec) where
  abbrev commands : Act Text (Unit {0})
  commands = do
    prefixed (codes "nginx test failed: ") (run_command exec c.test_command)
    prefixed (codes "nginx reload failed: ") (run_command exec c.reload_command)

  Verdict-commands :
      (m : Machine) (test reload : Result Text (Unit {0}))
      → run_command exec c.test_command m ≡ (test, m)
      → run_command exec c.reload_command m ≡ (reload, m)
      → Verdict (λ n. n ≡ m) (commands m) m test reload
  Verdict-commands m (ok _) (ok _) et er = rw et (rw er refl)
  Verdict-commands m (ok _) (err e) et er = (m, rw et (rw er refl), refl)
  Verdict-commands m (err e) reload et er = (m, rw et refl, refl)

  -- When configurations are applied, the site has a domain, its configuration and its link stand
  -- apart, nothing is in the way and no call of the system fails, deprovisioning removes both,
  -- whichever of them was there, and then answers by the two commands. The files stay removed when a
  -- command fails.
  pub deprovision_site-removes :
      (site : Site) (old_conf old_link : Option Text) (m : Machine)
      → c.apply ≡ true
      → site.domain ≢ []
      → conf_path c site ≢ link_path c site
      → tmp (conf_path c site) ≢ link_path c site
      → Shows (conf_path c site) (link_path c site) old_conf old_link m
      → (new : Machine) × Shows (conf_path c site) (link_path c site) none none new
        × Verdict
            (λ n. n ≡ new)
            (deprovision_site c exec site m)
            new
            (run_command exec c.test_command new).0
            (run_command exec c.reload_command new).0
  unfolding deprovision_site
  deprovision_site-removes site old_conf old_link m on named apart free k =
      let (m1, e1, k1) =
        remove_link-Reaches (conf_path c site) (link_path c site) apart free old_conf old_link m
          k in
      let (m2, e2, k2) =
        remove_conf-Reaches (conf_path c site) (link_path c site) apart free old_conf none m1 k1 in
      (
        m2,
        k2,
        rw (on, text_eq-false site.domain [] named)
            (rw e1 (
              rw e2 (
                Verdict-commands m2 (run_command exec c.test_command m2).0
                  (run_command exec c.reload_command m2).0 (command_result exec c.test_command m2)
                  (command_result exec c.reload_command m2)))),
      )
