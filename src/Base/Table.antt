-- ===== src/Base/Table.antt =====
-- Go's maps with string keys, as association lists: reading, writing, deleting and counting. The
-- order of the entries stands for the order in which `range` happens to visit them.
use mathlib.Core.Path.{◌≡◌, refl, sym, subst}
use mathlib.Core.Logic.{◌≢◌, inl, inr}
use mathlib.Core.Option.{Option, none, some}
use mathlib.Core.List.{List, [], ◌∷◌, map}
use native.Mathlib.Omega.{arith}
use nusantara_panel.Base.Tests.{if◌then◌else◌, Bool-cases}
use nusantara_panel.Base.Lists.{All}
use nusantara_panel.Base.Texts.{Text, text_eq, text_eq_iff, text_eq_self, text_eq-false}

abbrev pub Table {ℓ} : Type ℓ → Type ℓ
Table V = List (Text × V)

module _ {ℓ} {V : Type ℓ} where
  -- v, ok := m[k]
  unfoldable pub lookup : Text → Table V → Option V
  unfolding text_eq
  lookup k [] = none
  lookup k ((j, v) ∷ m) = if text_eq j k then some v else lookup k m

  -- m[k] = v
  unfoldable pub insert : Text → V → Table V → Table V
  unfolding text_eq
  insert k v [] = (k, v) ∷ []
  insert k v ((j, w) ∷ m) = if text_eq j k then (k, v) ∷ m else (j, w) ∷ insert k v m

  -- delete(m, k)
  unfoldable pub delete : Text → Table V → Table V
  unfolding text_eq
  delete k [] = []
  delete k ((j, w) ∷ m) = let rest = delete k m in if text_eq j k then rest else (j, w) ∷ rest

  abbrev pub values : Table V → List V
  values m = map (λ e. e.1) m

  pub lookup-insert :
      (key other : Text) (value : V) (m : Table V)
      → lookup other (insert key value m)
        ≡ (if text_eq key other then some value else lookup other m)
  unfolding lookup insert
  lookup-insert key other value [] = refl
  lookup-insert key other value ((found, old) ∷ m) =
      let ih = lookup-insert key other value m in
      ground (arith, ih, text_eq_iff found other, text_eq_iff found key, text_eq_iff key other)

  pub lookup-delete :
      (k j : Text) (m : Table V)
      → lookup j (delete k m) ≡ (if text_eq k j then none else lookup j m)
  unfolding lookup delete
  lookup-delete k j [] = ground arith
  lookup-delete k j ((i, w) ∷ m) =
      ground (arith, text_eq_iff k j, text_eq_iff i k, text_eq_iff i j, lookup-delete k j m)

  pub lookup-insert_self : (k : Text) (v : V) (m : Table V) → lookup k (insert k v m) ≡ some v
  lookup-insert_self k v m = rw (lookup-insert k k v m, text_eq_self k)

  pub lookup-insert_ne :
      (k j : Text) (v : V) (m : Table V) → k ≢ j → lookup j (insert k v m) ≡ lookup j m
  lookup-insert_ne k j v m h = rw (lookup-insert k j v m, text_eq-false k j h)

  pub lookup-delete_self : (k : Text) (m : Table V) → lookup k (delete k m) ≡ none
  lookup-delete_self k m = rw (lookup-delete k k m, text_eq_self k)

  pub lookup-delete_ne : (k j : Text) (m : Table V) → k ≢ j → lookup j (delete k m) ≡ lookup j m
  lookup-delete_ne k j m h = rw (lookup-delete k j m, text_eq-false k j h)

  pub lookup-nil : (k : Text) → lookup k [] ≡ none
  unfolding lookup
  lookup-nil k = refl

  -- No two entries of a table have one key.
  abbrev pub Fresh : Text → Table V → Type 0
  Fresh k m = All (λ e. e.0 ≢ k) m

  abbrev pub Distinct : Table V → Type 0
  Distinct [] = Unit
  Distinct ((k, v) ∷ m) = Fresh k m × Distinct m

  pub lookup_of_Fresh : (k : Text) (m : Table V) → Fresh k m → lookup k m ≡ none
  unfolding lookup
  lookup_of_Fresh k [] h = refl
  lookup_of_Fresh k ((j, w) ∷ m) h = rw (text_eq-false j k h.0) (lookup_of_Fresh k m h.1)

  pub Fresh-of_lookup : (k : Text) (m : Table V) → lookup k m ≡ none → Fresh k m
  unfolding lookup
  Fresh-of_lookup k [] h = tt
  Fresh-of_lookup k ((j, w) ∷ m) h = elim (Bool-cases (text_eq j k)) [
    | inl e ↦ absurd (cc (rw (e, lookup) at h))
    | inr e ↦ (λ same. cc ((text_eq_iff j k).1 same, e), Fresh-of_lookup k m (rw (e, lookup) at h))
  ]

  Fresh-insert : (k j : Text) (v : V) (m : Table V) → j ≢ k → Fresh k m → Fresh k (insert j v m)
  unfolding insert
  Fresh-insert k j v [] ne h = (ne, tt)
  Fresh-insert k j v ((i, w) ∷ m) ne h = elim (Bool-cases (text_eq i j)) [
    | inl e ↦ rw e (ne, h.1)
    | inr e ↦ rw e (h.0, Fresh-insert k j v m ne h.1)
  ]

  pub insert-Distinct : (k : Text) (v : V) (m : Table V) → Distinct m → Distinct (insert k v m)
  unfolding insert
  insert-Distinct k v [] h = (tt, tt)
  insert-Distinct k v ((i, w) ∷ m) h = elim (Bool-cases (text_eq i k)) [
    | inl e ↦ rw e (subst (λ x. Fresh x m) ((text_eq_iff i k).0 e) h.0, h.1)
    | inr e ↦ rw e (
      Fresh-insert i k v m (λ same. cc ((text_eq_iff i k).1 (sym same), e)) h.0,
      insert-Distinct k v m h.1,
    )
  ]

  Fresh-delete : (k j : Text) (m : Table V) → Fresh k m → Fresh k (delete j m)
  unfolding delete
  Fresh-delete k j [] h = tt
  Fresh-delete k j ((i, w) ∷ m) h = elim (Bool-cases (text_eq i j)) [
    | inl e ↦ rw e (Fresh-delete k j m h.1)
    | inr e ↦ rw e (h.0, Fresh-delete k j m h.1)
  ]

  pub delete-Distinct : (k : Text) (m : Table V) → Distinct m → Distinct (delete k m)
  unfolding delete
  delete-Distinct k [] h = tt
  delete-Distinct k ((i, w) ∷ m) h = elim (Bool-cases (text_eq i k)) [
    | inl e ↦ rw e (delete-Distinct k m h.1)
    | inr e ↦ rw e (Fresh-delete i k m h.0, delete-Distinct k m h.1)
  ]

pub ruleset table_laws = (lookup-insert, lookup-delete, lookup-nil)
