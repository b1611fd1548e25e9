-- ===== src/Store/FileDb/Rebuild.antt =====
-- `rebuildIndexes`: the rebuilt indexes belong to their tables, whatever the order of the entries.
use nusantara_panel.Base.{
  Text, Bool-cases, inl, inr, ◌⊎◌, text_eq, text_eq_iff, ◌≡◌, refl, sym, some, [], ◌∷◌, arith,
  Unicode, to_lower,
}
use nusantara_panel.Base.Table.{
  Table, lookup, insert, lookup-insert, lookup-nil, Distinct, lookup_of_Fresh,
}
use nusantara_panel.Store.{User, Site}
use nusantara_panel.Store.FileDb.Snapshot.{
  Snapshot, index_usernames, index_domains, rebuild_indexes,
}
use nusantara_panel.Store.FileDb.Indexes.{Indexed}

module _ {V : Type 0} (key : V → Text) where
  pub index_all : Table V → Table Text → Table Text
  index_all [] index = index
  index_all ((id, v) ∷ m) index = index_all m (insert (key v) id index)

  -- No two entries have one key.
  abbrev pub HasUniqueKeys : Table V → Type 0
  HasUniqueKeys m =
      (a b : Text) (v w : V) → lookup a m ≡ some v → lookup b m ≡ some w → key v ≡ key w → a ≡ b

  index_all_grows :
      (m : Table V) (index : Table Text) (k id : Text)
      → lookup k index ≡ some id
      → (j : Text) × (lookup k (index_all m index) ≡ some j)
  unfolding index_all
  index_all_grows [] index k id h = (id, h)
  index_all_grows ((i, w) ∷ m) index k id h = elim (Bool-cases (text_eq (key w) k)) [
    | inl e ↦
        index_all_grows m (insert (key w) i index) k i
          (ground (arith, lookup-insert (key w) k i index))
    | inr e ↦
        index_all_grows m (insert (key w) i index) k id
          (ground (arith, lookup-insert (key w) k i index))
  ]

  index_all_listed :
      (m : Table V) (index : Table Text) (id : Text) (v : V)
      → lookup id m ≡ some v
      → (j : Text) × (lookup (key v) (index_all m index) ≡ some j)
  unfolding index_all lookup
  index_all_listed [] index id v h = absurd (cc)
  index_all_listed ((i, w) ∷ m) index id v h = elim (Bool-cases (text_eq i id)) [
    | inl e ↦
        index_all_grows m (insert (key w) i index) (key v) i
          (ground (arith, lookup-insert (key w) (key v) i index, text_eq_iff (key w) (key v)))
    | inr e ↦ index_all_listed m (insert (key w) i index) id v (rw (e, lookup) at h)
  ]

  index_all_backed :
      (m : Table V) (index : Table Text) (k id : Text)
      → Distinct m
      → lookup k (index_all m index) ≡ some id
      → (lookup k index ≡ some id) ⊎ ((v : V) × (lookup id m ≡ some v) × (key v ≡ k))
  unfolding index_all lookup
  index_all_backed [] index k id d h = inl h
  index_all_backed ((i, w) ∷ m) index k id d h =
      elim (index_all_backed m (insert (key w) i index) k id d.1 h) [
        | inl e ↦ elim (Bool-cases (text_eq (key w) k)) [
          | inl t ↦ inr (
            w,
            ground (arith, lookup-insert (key w) k i index, text_eq_iff i id),
            (text_eq_iff (key w) k).0 t,
          )
          | inr f ↦ inl (ground (arith, lookup-insert (key w) k i index))
        ]
        | inr (v, p, q) ↦ inr (v, ground (arith, text_eq_iff i id, lookup_of_Fresh i m d.0), q)
      ]

  pub index_all-Indexed :
      (m : Table V) → Distinct m → HasUniqueKeys m → Indexed key m (index_all m [])
  index_all-Indexed m d unique = record {
    listed = λ id v h.
        let (j, e) = index_all_listed m [] id v h in
        elim (index_all_backed m [] (key v) j d e) [
          | inl e' ↦ absurd (cc (lookup-nil {V = Text} (key v)))
          | inr (w, p, q) ↦ ground (arith, unique id j v w h p (sym q))
        ];
    backed = λ k id h. elim (index_all_backed m [] k id d h) [
      | inl e ↦ absurd (cc (lookup-nil {V = Text} k))
      | inr found ↦ found
    ];
  }

module _ ⦃u : Unicode⦄ where
  abbrev pub username_key : User → Text
  username_key user = to_lower user.username

  abbrev pub domain_key : Site → Text
  domain_key site = to_lower site.domain

  index_usernames-index_all :
      (m : Table User) (index : Table Text)
      → index_usernames m index ≡ index_all username_key m index
  unfolding index_usernames index_all
  index_usernames-index_all [] index = refl
  index_usernames-index_all ((id, user) ∷ m) index =
      index_usernames-index_all m (insert (username_key user) id index)

  index_domains-index_all :
      (m : Table Site) (index : Table Text) → index_domains m index ≡ index_all domain_key m index
  unfolding index_domains index_all
  index_domains-index_all [] index = refl
  index_domains-index_all ((id, site) ∷ m) index =
      index_domains-index_all m (insert (domain_key site) id index)

  -- Whatever indexes a snapshot comes with, the rebuilt ones belong to its tables, if no two users
  -- share a name and no two sites a domain in lower case.
  pub rebuild_indexes-Indexed :
      (s : Snapshot)
      → Distinct s.users
      → Distinct s.sites
      → HasUniqueKeys username_key s.users
      → HasUniqueKeys domain_key s.sites
      → Indexed username_key s.users (rebuild_indexes s).username_index
        × Indexed domain_key s.sites (rebuild_indexes s).domain_index
  unfolding rebuild_indexes
  rebuild_indexes-Indexed s du ds ku ks = (
    rw (index_usernames-index_all s.users []) (index_all-Indexed username_key s.users du ku),
    rw (index_domains-index_all s.sites []) (index_all-Indexed domain_key s.sites ds ks),
  )
