-- ===== src/Store/Memory.antt =====
-- internal/store/memory/site_store.go: sites in the order of their creation.
use nusantara_panel.Base.{List, [], ◌∷◌, ◌++◌}
use nusantara_panel.Store.{Site}

pub record SiteStore : Type 0 where
  pub sites : List Site

pub new_site_store : SiteStore
new_site_store = record { sites = [] }

pub create_site : Site → SiteStore → SiteStore
create_site site s = record { sites = s.sites ++ site ∷ [] }

pub list_sites : SiteStore → List Site
list_sites s = s.sites
