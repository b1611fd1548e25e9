-- ===== src/Store/FileDb/Methods/Listing.antt =====
-- How the listing methods order and cut their results, and that the orders are right.
use mathlib.Core.List.{Perm, append-nil, append_assoc, reverse-append}
use Prim.Native.Nat.{min}
use native.Mathlib.Numerals.{sub-one}
use mathlib.Core.List.Perm
use nusantara_panel.Base.{
  ℕ, zero, suc, ◌-◌, ◌≤◌, ◌≡◌, refl, inl, inr, Bool-cases, Option, none, some, List, [], ◌∷◌, ◌++◌,
  reverse, ltb, leb, if◌then◌else◌, length, take, ℤ, pos, negsuc, arith, ◌&&◌, ◌||◌, ap, sym, drop,
  All, length-take, length-append, lt→ltb, take_all, ◌<◌,
}
use nusantara_panel.Store.{Time}

-- A limit that is not positive, or is above the size, becomes the size.
pub bound : ℤ → ℕ → ℕ
bound (pos n) size = if leb n 0 || ltb size n then size else n
bound (negsuc n) size = size

-- What `clip` keeps is a prefix, of the length that the limit allows.
abbrev pub Fits : ℤ → ℕ → ℕ → Type 0
Fits (pos zero) kept size = kept ≡ size
Fits (pos (suc n)) kept size = kept ≡ min (suc n) size
Fits (negsuc n) kept size = kept ≡ size

module _ {ℓ} {A : Type ℓ} where
  -- if limit > 0 && len(xs) > limit { xs = xs[:limit] }
  unfoldable pub clip : ℤ → List A → List A
  clip (pos n) xs = if ltb 0 n && ltb n (length xs) then take n xs else xs
  clip (negsuc n) xs = xs

  insert_newest : (A → Time) → A → List A → List A
  insert_newest at x [] = x ∷ []
  insert_newest at x (y ∷ ys) = if ltb (at x) (at y) then y ∷ insert_newest at x ys else x ∷ y ∷ ys

  -- sort.Slice by the time of creation, the latest first. It may put equal times in any order; this
  -- keeps them as they were.
  unfoldable pub sort_newest : (A → Time) → List A → List A
  unfolding insert_newest
  sort_newest at [] = []
  sort_newest at (x ∷ xs) = insert_newest at x (sort_newest at xs)

  get_elem? : List A → ℕ → Option A
  get_elem? [] i = none
  get_elem? (x ∷ xs) zero = some x
  get_elem? (x ∷ xs) (suc i) = get_elem? xs i

  abbrev push : List A → Option A → List A
  push out none = out
  push out (some x) = out ++ x ∷ []

  -- for i := n - 1; i >= 0 && len(out) < limit; i-- { out = append(out, xs[i]) }
  collect : ℕ → ℕ → List A → List A → List A
  collect zero limit xs out = out
  collect (suc i) limit xs out =
      let rest = collect i limit xs (push out (get_elem? xs i)) in
      if ltb (length out) limit then rest else out

  unfoldable pub newest_first : ℤ → List A → List A
  unfolding collect get_elem? bound
  newest_first limit xs = collect (length xs) (bound limit (length xs)) xs []

module _ {ℓ} {A : Type ℓ} (at : A → Time) where
  -- No entry is later than one before it.
  abbrev pub IsNewestFirst : List A → Type 0
  IsNewestFirst [] = Unit
  IsNewestFirst (x ∷ xs) = All (λ y. at y ≤ at x) xs × IsNewestFirst xs

  insert_newest-perm : (x : A) (xs : List A) → Perm (insert_newest at x xs) (x ∷ xs)
  unfolding insert_newest
  insert_newest-perm x [] = Perm.refl (x ∷ [])
  insert_newest-perm x (y ∷ ys) = elim (Bool-cases (ltb (at x) (at y))) [
    | inl e ↦ rw e (Perm.trans (Perm.cons y (insert_newest-perm x ys)) (Perm.swap x y ys))
    | inr e ↦ rw e (Perm.refl (x ∷ y ∷ ys))
  ]

  pub sort_newest-perm : (xs : List A) → Perm (sort_newest at xs) xs
  unfolding sort_newest
  sort_newest-perm [] = Perm.refl []
  sort_newest-perm (x ∷ xs) =
      Perm.trans (insert_newest-perm x (sort_newest at xs)) (Perm.cons x (sort_newest-perm xs))

  length-insert_newest : (x : A) (xs : List A) → length (insert_newest at x xs) ≡ suc (length xs)
  unfolding insert_newest
  length-insert_newest x [] = refl
  length-insert_newest x (y ∷ ys) = ground (arith, length-insert_newest x ys)

  pub length-sort_newest : (xs : List A) → length (sort_newest at xs) ≡ length xs
  unfolding sort_newest
  length-sort_newest [] = refl
  length-sort_newest (x ∷ xs) =
      omega (arith, length-insert_newest x (sort_newest at xs), length-sort_newest xs)

  All-le_trans : (m n : ℕ) (xs : List A) → m ≤ n → All (λ y. at y ≤ m) xs → All (λ y. at y ≤ n) xs
  All-le_trans m n [] h a = tt
  All-le_trans m n (x ∷ xs) h a = (omega arith, All-le_trans m n xs h a.1)

  All-insert_newest :
      (m : ℕ) (x : A) (xs : List A)
      → at x ≤ m
      → All (λ y. at y ≤ m) xs
      → All (λ y. at y ≤ m) (insert_newest at x xs)
  unfolding insert_newest
  All-insert_newest m x [] h a = (h, tt)
  All-insert_newest m x (y ∷ ys) h a = elim (Bool-cases (ltb (at x) (at y))) [
    | inl e ↦ rw e (a.0, All-insert_newest m x ys h a.1)
    | inr e ↦ rw e (h, a)
  ]

  insert_newest-IsNewestFirst :
      (x : A) (xs : List A) → IsNewestFirst xs → IsNewestFirst (insert_newest at x xs)
  unfolding insert_newest
  insert_newest-IsNewestFirst x [] s = (tt, tt)
  insert_newest-IsNewestFirst x (y ∷ ys) s = elim (Bool-cases (ltb (at x) (at y))) [
    | inl e ↦
        rw e
          (All-insert_newest (at y) x ys (ground arith) s.0, insert_newest-IsNewestFirst x ys s.1)
    | inr e ↦
        let h : at y ≤ at x = ground arith in rw e ((h, All-le_trans (at y) (at x) ys h s.0), s)
  ]

  pub sort_newest-IsNewestFirst : (xs : List A) → IsNewestFirst (sort_newest at xs)
  unfolding sort_newest
  sort_newest-IsNewestFirst [] = tt
  sort_newest-IsNewestFirst (x ∷ xs) =
      insert_newest-IsNewestFirst x (sort_newest at xs) (sort_newest-IsNewestFirst xs)

module _ {ℓ} {A : Type ℓ} where
  take-append-drop : (n : ℕ) (xs : List A) → take n xs ++ drop n xs ≡ xs
  take-append-drop zero xs = refl
  take-append-drop (suc n) [] = refl
  take-append-drop (suc n) (x ∷ xs) = rw (take-append-drop n xs)

  pub clip_prefix :
      (limit : ℤ) (xs : List A)
      → (rest : List A) × (clip limit xs ++ rest ≡ xs)
        × Fits limit (length (clip limit xs)) (length xs)
  unfolding clip
  clip_prefix (negsuc n) xs = ([], append-nil xs, refl)
  clip_prefix (pos zero) xs = ([], append-nil xs, refl)
  clip_prefix (pos (suc n)) xs = elim (Bool-cases (ltb (suc n) (length xs))) [
    | inl e ↦ (
      drop (suc n) xs,
      rw (lt→ltb 0 (suc n) (omega arith), e) (take-append-drop (suc n) xs),
      rw (lt→ltb 0 (suc n) (omega arith), e) (length-take (suc n) xs),
    )
    | inr e ↦ (
      [],
      rw (lt→ltb 0 (suc n) (omega arith), e) (append-nil xs),
      rw (lt→ltb 0 (suc n) (omega arith), e) (ground arith),
    )
  ]

  get_elem?-take :
      (i : ℕ) (xs : List A)
      → i < length xs
      → (x : A) × (get_elem? xs i ≡ some x) × (take (suc i) xs ≡ take i xs ++ x ∷ [])
  unfolding get_elem?
  get_elem?-take i [] h = absurd (omega arith)
  get_elem?-take zero (x ∷ xs) h = (x, refl, refl)
  get_elem?-take (suc i) (x ∷ xs) h =
      let (y, e, t) = get_elem?-take i xs (omega arith) in (y, e, ap (◌∷◌ x) t)

  take_zero : (n : ℕ) (xs : List A) → n ≡ 0 → take n xs ≡ []
  take_zero zero xs h = refl
  take_zero (suc n) xs h = absurd (omega arith)

  take_cons : (n : ℕ) (x : A) (xs : List A) → 0 < n → take n (x ∷ xs) ≡ x ∷ take (n - 1) xs
  take_cons zero x xs h = absurd (omega arith)
  take_cons (suc n) x xs h = rw (sub-one (suc n)) refl

  take_of_nil : (n : ℕ) → take {A = A} n [] ≡ []
  take_of_nil zero = refl
  take_of_nil (suc n) = refl

  collect-take :
      (i limit : ℕ) (xs out : List A)
      → i ≤ length xs
      → collect i limit xs out ≡ out ++ take (limit - length out) (reverse (take i xs))
  unfolding collect
  collect-take zero limit xs out h = rw (take_of_nil (limit - length out)) (sym (append-nil out))
  collect-take (suc i) limit xs out h =
      let (x, e, t) = get_elem?-take i xs h in
      elim (Bool-cases (ltb (length out) limit)) [
        | inl more ↦
            rw
              (
                more,
                e,
                t,
                reverse-append (take i xs) (x ∷ []),
                take_cons (limit - length out) x (reverse (take i xs)) (ground arith),
                collect-take i limit xs (out ++ x ∷ []) (omega arith),
                append_assoc,
              )
              (ap (λ n. out ++ x ∷ take n (reverse (take i xs)))
                (omega (arith, length-append out (x ∷ []))))
        | inr full ↦
            rw (full, take_zero (limit - length out) _ (ground arith)) (sym (append-nil out))
      ]

  pub newest_first-take :
      (limit : ℤ) (xs : List A)
      → newest_first limit xs ≡ take (bound limit (length xs)) (reverse xs)
  unfolding newest_first
  newest_first-take limit xs =
      rw
        (
          collect-take (length xs) (bound limit (length xs)) xs [] (omega arith),
          take_all xs (length xs) (omega arith),
        )
        (ap (λ n. take n (reverse xs)) (omega arith))
