-- ===== src/Store/Growth.antt =====
-- A table that grows: each row stays in its place, related to what it was, and rows may be new
-- behind it.
use voyagi.Prelude.{
  Bool, true, List, [], ◌∷◌, ◌++◌, some, ◌≡◌, arith, find, update, Bool-cases, inl, inr, subst,
}

module _ {A : Type 0} (C : A → A → Type 0) where
  abbrev pub Grows : List A → List A → Type 0
  Grows [] ys = Unit
  Grows (x ∷ xs) [] = ⊥
  Grows (x ∷ xs) (y ∷ ys) = C x y × Grows xs ys

  module _ (same : (x : A) → C x x) where
    pub Grows-refl : (xs : List A) → Grows xs xs
    Grows-refl [] = tt
    Grows-refl (x ∷ xs) = (same x, Grows-refl xs)

    pub Grows-append : (xs ys : List A) → Grows xs (xs ++ ys)
    Grows-append [] ys = tt
    Grows-append (x ∷ xs) ys = (same x, Grows-append xs ys)

    pub Grows-update :
        (p : A → Bool) (f : A → A)
        → ((x : A) → p x ≡ true → C x (f x))
        → (xs : List A) → Grows xs (update p f xs)
    Grows-update p f h [] = tt
    Grows-update p f h (x ∷ xs) = elim (Bool-cases (p x)) [
      | inl e ↦ rw e (h x e, Grows-update p f h xs)
      | inr e ↦ rw e (same x, Grows-update p f h xs)
    ]

  pub Grows-trans :
      ((x y z : A) → C x y → C y z → C x z)
      → (xs ys zs : List A) → Grows xs ys
      → Grows ys zs
      → Grows xs zs
  Grows-trans t [] ys zs a b = tt
  Grows-trans t (x ∷ xs) [] zs a b = absurd a
  Grows-trans t (x ∷ xs) (y ∷ ys) [] a b = absurd b
  Grows-trans t (x ∷ xs) (y ∷ ys) (z ∷ zs) a b = (t x y z a.0 b.0, Grows-trans t xs ys zs a.1 b.1)

  -- A row that a clause finds is found later, where the clause does not look at what changes.
  pub find-Grows :
      (p : A → Bool)
      → ((x y : A) → C x y → p y ≡ p x)
      → (xs ys : List A) {x : A} → Grows xs ys
      → find p xs ≡ some x
      → (y : A) × (find p ys ≡ some y) × C x y
  find-Grows p k [] ys g h = cc
  find-Grows p k (x ∷ xs) [] g h = absurd g
  find-Grows p k (x ∷ xs) (y ∷ ys) (c, g) h = elim (Bool-cases (p x)) [
    | inl e ↦ (y, ground (arith, k x y c, e), subst (λ z. C z y) (ground (arith, e)) c)
    | inr e ↦
        let (z, f, d) = find-Grows p k xs ys g (rw e at h) in (z, ground (arith, k x y c, e), d)
  ]
