-- ===== src/Store/FileDb/Lists.antt =====
-- What the listing methods return: the entries of a table or a log, newest first, cut at the limit.
use nusantara_panel.Store.FileDb.Snapshot.{Repository}
use nusantara_panel.Base.Table.{values, Table}
use mathlib.Core.List.{Perm}
use nusantara_panel.Store.FileDb.Methods.{
  newest_first-take, clip_prefix, sort_newest-IsNewestFirst, length-sort_newest, sort_newest-perm,
  Fits, IsNewestFirst, bound, sort_newest, clip, list_audit_logs, list_sites,
}
use nusantara_panel.Base.{suc, ap, refl, ◌∷◌, [], ℤ, List, ◌++◌, ◌≡◌, length, take, reverse}
use nusantara_panel.Store.{Time, Site}

module _ {A : Type 0} (at : A → Time) where
  clip-sort_newest :
      (limit : ℤ) (xs : List A)
      → (rest : List A) × Perm (clip limit (sort_newest at xs) ++ rest) xs
        × IsNewestFirst at (clip limit (sort_newest at xs) ++ rest)
        × Fits limit (length (clip limit (sort_newest at xs))) (length xs)
  clip-sort_newest limit xs =
      let (rest, e, fits) = clip_prefix limit (sort_newest at xs) in
      (
        rest,
        rw e (sort_newest-perm at xs),
        rw e (sort_newest-IsNewestFirst at xs),
        rw (← length-sort_newest at xs) fits,
      )

length-values {ℓ} : {V : Type ℓ} (m : Table V) → length (values m) ≡ length m
length-values [] = refl
length-values (e ∷ m) = ap suc (length-values m)

-- `list_sites` returns a part of the stored sites, all or as many as a positive limit allows: with the
-- sites that are left out behind them they are the stored sites in another order, and none of this
-- sequence was created later than one before it.
list_sites_lem :
    (limit : ℤ) (r : Repository)
    → (rest : List Site) × Perm (list_sites limit r ++ rest) (values r.snap.sites)
      × IsNewestFirst (λ s. s.created_at) (list_sites limit r ++ rest)
      × Fits limit (length (list_sites limit r)) (length r.snap.sites)
unfolding list_sites
list_sites_lem limit r =
    rw (← length-values r.snap.sites)
      (clip-sort_newest (λ s. s.created_at) limit (values r.snap.sites))

-- The loop of `list_audit_logs` returns the log from its end, all of it or as much as a positive
-- limit below the size allows.
pub list_audit_logs_lem :
    (limit : ℤ) (r : Repository)
    → list_audit_logs limit r
      ≡ take (bound limit (length r.snap.audit_logs)) (reverse r.snap.audit_logs)
unfolding list_audit_logs
list_audit_logs_lem limit r = newest_first-take limit r.snap.audit_logs
