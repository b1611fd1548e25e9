-- ===== src/Monitor.antt =====
-- internal/monitor/services.go: the states of the services of the system. The command systemctl, with
-- its time limit, and the system that the program is built for are parameters.
use nusantara_panel.Base.{
  negsuc, ◌^◌, ◌*◌, ltb, trim_space, pos, Unicode, ℤ, Text, codes, [], ◌∷◌, List, Bool, true, none,
  some, text_eq, if◌then◌else◌,
}
use nusantara_panel.Store.{Time}
use nusantara_panel.Updater.System.{Ran}

pub record ServiceState : Type 0 where
  pub name : Text
  pub status : Text
  pub checked_at : Time

-- Times are in nanoseconds.
pub record ServicesMonitor : Type 0 where
  pub names : List Text
  pub timeout : ℤ

abbrev is_short : ℤ → Bool
is_short (pos n) = ltb n (10 ^ 9)
is_short (negsuc n) = true

unfoldable pub new_services_monitor : List Text → ℤ → ServicesMonitor
new_services_monitor names timeout = record {
  names = elim names [
    | [] ↦ codes "nginx" ∷ codes "php8.1-fpm" ∷ codes "mariadb" ∷ codes "redis-server" ∷ []
    | (name ∷ rest) ↦ name ∷ rest
  ];
  timeout = if is_short timeout then pos (3 * 10 ^ 9) else timeout;
}

module _ ⦃u : Unicode⦄ {G : Type 0} (goos : Text) (run : List Text → G → Ran × G) where
  -- What the command prints, also where it fails, as it does for a service that is not active.
  abbrev pub status_of : Ran → Text
  status_of ran = elim ran.failure [
    | some cause ↦ if text_eq ran.output [] then codes "unknown" else trim_space ran.output
    | none ↦ trim_space ran.output
  ]

  abbrev pub probe : Text → G → Text × G
  probe name g =
      let (ran, next) = run (codes "systemctl" ∷ codes "is-active" ∷ name ∷ []) g in
      if text_eq goos (codes "linux") then (status_of ran, next) else (codes "unknown", g)

  abbrev pub list_from : Time → List Text → G → List ServiceState × G
  list_from now [] g = ([], g)
  list_from now (name ∷ names) g =
      let (status, next) = probe name g in
      let (items, last) = list_from now names next in
      let item : ServiceState = record { name = name; status = status; checked_at = now } in
      (item ∷ items, last)

  unfoldable pub list : ServicesMonitor → Time → G → List ServiceState × G
  unfolding text_eq
  list m now g = list_from now m.names g
