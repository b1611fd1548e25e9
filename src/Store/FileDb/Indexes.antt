-- ===== src/Store/FileDb/Indexes.antt =====
-- The indexes of the repository by user name and by domain: what it means that an index belongs to
-- a table, and which changes of the two keep it so. `key` is the lower-case name of an entry.
use nusantara_panel.Base.{
  Text, Bool-cases, Option-cases, inl, inr, text_eq, text_eq_iff, ◌≡◌, none, some, [], arith,
}
use nusantara_panel.Base.Table.{
  Table, lookup, insert, delete, lookup-insert, lookup-delete, lookup-nil,
}

module _ {V : Type 0} (key : V → Text) where
  -- Every entry is found by its key, and the index has no other keys.
  pub record Indexed (m : Table V) (index : Table Text) : Type 0 where
    pub listed : (id : Text) (v : V) → lookup id m ≡ some v → lookup (key v) index ≡ some id
    pub backed :
        (k id : Text) → lookup k index ≡ some id → (v : V) × (lookup id m ≡ some v) × (key v ≡ k)

  pub Indexed-nil : Indexed [] []
  Indexed-nil = record {
    listed = λ id v h. cc (lookup-nil {V = V} id);
    backed = λ k id h. absurd (cc (lookup-nil {V = Text} k));
  }

  module _ (m : Table V) (index : Table Text) (ix : Indexed m index) where
    -- Two entries with one key are one entry.
    pub Indexed-unique :
        (a b : Text) (v w : V) → lookup a m ≡ some v → lookup b m ≡ some w → key v ≡ key w → a ≡ b
    Indexed-unique a b v w p q e = ground (arith, ix.listed a v p, ix.listed b w q)

    pub Indexed-insert :
        (id : Text) (v : V)
        → lookup id m ≡ none
        → lookup (key v) index ≡ none
        → Indexed (insert id v m) (insert (key v) id index)
    Indexed-insert id v new free = record {
      listed = λ id' v' h. ground (
        arith,
        lookup-insert id id' v m,
        lookup-insert (key v) (key v') id index,
        text_eq_iff id id',
        text_eq_iff (key v) (key v'),
        ix.listed id' v',
      );
      backed = λ k id' h. elim (Bool-cases (text_eq (key v) k)) [
        | inl e ↦ (
          v,
          ground (
            arith,
            lookup-insert (key v) k id index,
            lookup-insert id id' v m,
            text_eq_iff id id',
          ),
          (text_eq_iff (key v) k).0 e,
        )
        | inr e ↦
            let (x, p, q) = ix.backed k id' (ground (arith, lookup-insert (key v) k id index)) in
            (x, ground (arith, lookup-insert id id' v m, text_eq_iff id id'), q)
      ];
    }

    -- A new value under the same key.
    pub Indexed-replace :
        (id : Text) (v w : V) → lookup id m ≡ some v → key w ≡ key v → Indexed (insert id w m) index
    Indexed-replace id v w old same = record {
      listed = λ id' v' h.
          ground
            (arith, lookup-insert id id' w m, text_eq_iff id id', ix.listed id' v', ix.listed id v);
      backed = λ k id' h.
          let (x, p, q) = ix.backed k id' h in
          elim (Bool-cases (text_eq id id')) [
            | inl e ↦
                (w, ground (arith, lookup-insert id id' w m), ground (arith, text_eq_iff id id'))
            | inr e ↦ (x, ground (arith, lookup-insert id id' w m), q)
          ];
    }

    pub Indexed-delete :
        (id : Text) (v : V) → lookup id m ≡ some v → Indexed (delete id m) (delete (key v) index)
    Indexed-delete id v old = record {
      listed = λ id' v' h. ground (
        arith,
        lookup-delete id id' m,
        lookup-delete (key v) (key v') index,
        text_eq_iff id id',
        text_eq_iff (key v) (key v'),
        ix.listed id' v',
        ix.listed id v,
      );
      backed = λ k id' h.
          let (x, p, q) = ix.backed k id' (ground (arith, lookup-delete (key v) k index)) in
          (
            x,
            ground (
              arith,
              lookup-delete (key v) k index,
              lookup-delete id id' m,
              text_eq_iff id id',
              text_eq_iff (key v) k,
            ),
            q,
          );
    }

  -- Two indexes of one table hold the same.
  pub Indexed-agree :
      (m : Table V) (a b : Table Text)
      → Indexed m a
      → Indexed m b
      → (k : Text) → lookup k a ≡ lookup k b
  Indexed-agree m a b ia ib k = elim (Option-cases (lookup k a)) [
    | inl e ↦ elim (Option-cases (lookup k b)) [
      | inl e' ↦ cc
      | inr (id, e') ↦ let (v, p, q) = ib.backed k id e' in ground (arith, ia.listed id v p)
    ]
    | inr (id, e) ↦ let (v, p, q) = ia.backed k id e in ground (arith, ib.listed id v p)
  ]
