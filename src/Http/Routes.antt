-- ===== src/Http/Routes.antt =====
-- The routes of the API, as `RegisterRoutes` lists them, and the handler of each.
use nusantara_panel.Base.{some, Unicode}
use nusantara_panel.Store.{role_admin}
use nusantara_panel.Http.{Request, World, Env, Api, Reply}
use nusantara_panel.Http.Accounts.{
  Principal, handle_login, handle_logout, handle_me, handle_change_password, require_auth,
  require_role,
}
use nusantara_panel.Http.Sites.{
  handle_list_sites, handle_create_site, handle_get_site, handle_delete_site, handle_list_jobs,
  handle_get_job, handle_list_audit_logs,
}
use nusantara_panel.Http.Files.{
  handle_get_site_content, handle_update_site_content, handle_download_site_file,
  handle_upload_site_file, handle_delete_site_file, handle_create_site_dir, handle_delete_site_dir,
}
use nusantara_panel.Http.Databases.{
  handle_list_databases, handle_create_database, handle_create_database_user,
}
use nusantara_panel.Http.Archives.{handle_list_site_files, handle_backup_site_content}
use nusantara_panel.Http.Backups.{handle_run_backup, handle_restore_backup}
use nusantara_panel.Http.Operations.{
  handle_issue_ssl, handle_renew_ssl, handle_monitor_host, handle_monitor_services,
  handle_panel_version, handle_start_panel_update, handle_panel_update_check,
  handle_panel_update_status,
}

-- The routes that take a token of any user, and the ones that take an administrator's.
pub data UserRoute : Type 0 where
  logout me change_password : UserRoute

pub data AdminRoute : Type 0 where
  list_sites create_site get_site get_site_content update_site_content : AdminRoute
  list_site_files download_site_file upload_site_file delete_site_file : AdminRoute
  create_site_dir delete_site_dir backup_site_content : AdminRoute
  delete_site list_jobs get_job list_databases create_database create_database_user : AdminRoute
  run_backup restore_backup issue_ssl renew_ssl list_audit_logs : AdminRoute
  monitor_host monitor_services panel_version panel_update_check panel_update : AdminRoute
  panel_update_status : AdminRoute

pub data Route : Type 0 where
  login : Route
  for_user : UserRoute → Route
  for_admin : AdminRoute → Route

module _ ⦃u : Unicode⦄ {F G : Type 0} (a : Api F G) (env : Env) (req : Request) where
  unfoldable pub handle_user : UserRoute → Principal → World F G → Reply F G
  handle_user logout p w = some (handle_logout a env p w)
  handle_user me p w = some (handle_me a env p w)
  handle_user change_password p w = some (handle_change_password a env p req w)

  unfoldable pub handle_admin : AdminRoute → Principal → World F G → Reply F G
  handle_admin list_sites p w = some (handle_list_sites req w)
  handle_admin create_site p w = handle_create_site a env p req w
  handle_admin get_site p w = some (handle_get_site req w)
  handle_admin get_site_content p w = some (handle_get_site_content a env req w)
  handle_admin update_site_content p w = some (handle_update_site_content a env p req w)
  handle_admin list_site_files p w = some (handle_list_site_files a env req w)
  handle_admin download_site_file p w = some (handle_download_site_file a env req w)
  handle_admin upload_site_file p w = some (handle_upload_site_file a env p req w)
  handle_admin delete_site_file p w = some (handle_delete_site_file a env p req w)
  handle_admin create_site_dir p w = some (handle_create_site_dir a env p req w)
  handle_admin delete_site_dir p w = some (handle_delete_site_dir a env p req w)
  handle_admin backup_site_content p w = some (handle_backup_site_content a env p req w)
  handle_admin delete_site p w = handle_delete_site a env p req w
  handle_admin list_jobs p w = some (handle_list_jobs req w)
  handle_admin get_job p w = some (handle_get_job req w)
  handle_admin list_databases p w = some (handle_list_databases a env w)
  handle_admin create_database p w = some (handle_create_database a env p req w)
  handle_admin create_database_user p w = some (handle_create_database_user a env p req w)
  handle_admin run_backup p w = some (handle_run_backup a env p w)
  handle_admin restore_backup p w = some (handle_restore_backup a env p req w)
  handle_admin issue_ssl p w = some (handle_issue_ssl a env p req w)
  handle_admin renew_ssl p w = some (handle_renew_ssl a env p w)
  handle_admin list_audit_logs p w = some (handle_list_audit_logs req w)
  handle_admin monitor_host p w = some (handle_monitor_host a env w)
  handle_admin monitor_services p w = some (handle_monitor_services a env w)
  handle_admin panel_version p w = some (handle_panel_version a env w)
  handle_admin panel_update_check p w = some (handle_panel_update_check a env w)
  handle_admin panel_update p w = some (handle_start_panel_update a env p w)
  handle_admin panel_update_status p w = some (handle_panel_update_status a env w)

  unfoldable pub serve : Route → World F G → Reply F G
  unfolding handle_user handle_admin
  serve login w = some (handle_login a env req w)
  serve (for_user route) w = require_auth a env (handle_user route) req w
  serve (for_admin route) w = require_role a env role_admin (handle_admin route) req w
