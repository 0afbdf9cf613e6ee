-- ===== src/Prelude/Lists.antt =====
-- A property of every row of a list, and tables before and after an update.
use mathlib.Core.Bool.{Bool, true, false}
use mathlib.Core.Path.{◌≡◌, refl}
use mathlib.Core.List.{List, [], ◌∷◌, map}
use mathlib.Core.Logic.{◌⊎◌, inl, inr}
use voyagi.Prelude.Tests.{Bool-cases}
use voyagi.Prelude.Tables.{order_by, insert_by, update}

module _ {A : Type 0} where
  abbrev pub Every : (A → Type 0) → List A → Type 0
  Every P [] = Unit {0}
  Every P (x ∷ xs) = P x × Every P xs

  pub Every-mono :
      (P Q : A → Type 0) → ((x : A) → P x → Q x) → (xs : List A) → Every P xs → Every Q xs
  Every-mono P Q f [] h = tt
  Every-mono P Q f (x ∷ xs) h = (f x h.0, Every-mono P Q f xs h.1)

  Every-insert_by :
      (P : A → Type 0) (le : A → A → Bool) (x : A) (xs : List A)
      → P x
      → Every P xs
      → Every P (insert_by le x xs)
  Every-insert_by P le x [] p h = (p, tt)
  Every-insert_by P le x (y ∷ ys) p h = elim (Bool-cases (le x y)) [
    | inl e ↦ rw e (p, h)
    | inr e ↦ rw e (h.0, Every-insert_by P le x ys p h.1)
  ]

  pub Every-order_by :
      (P : A → Type 0) (le : A → A → Bool) (xs : List A) → Every P xs → Every P (order_by le xs)
  Every-order_by P le [] h = tt
  Every-order_by P le (x ∷ xs) h = Every-insert_by P le x _ h.0 (Every-order_by P le xs h.1)

pub Every-map :
    {A B : Type 0} (P : B → Type 0) (f : A → B) (xs : List A)
    → Every (λ x. P (f x)) xs
    → Every P (map f xs)
Every-map P f [] h = tt
Every-map P f (x ∷ xs) h = (h.0, Every-map P f xs h.1)

-- Row by row, a table with the rows of a clause changed as `C` says, and all others as they were.
module _ {A : Type 0} (p : A → Bool) (C : A → A → Type 0) where
  abbrev pub Rewritten : List A → List A → Type 0
  Rewritten [] [] = Unit {0}
  Rewritten [] (y ∷ ys) = ⊥
  Rewritten (x ∷ xs) [] = ⊥
  Rewritten (x ∷ xs) (y ∷ ys) =
      (((p x ≡ true) × C x y) ⊎ ((p x ≡ false) × (y ≡ x))) × Rewritten xs ys

  pub Rewritten-update :
      (f : A → A) → ((x : A) → C x (f x)) → (xs : List A) → Rewritten xs (update p f xs)
  Rewritten-update f c [] = tt
  Rewritten-update f c (x ∷ xs) = elim (Bool-cases (p x)) [
    | inl e ↦ rw e (inl (refl, c x), Rewritten-update f c xs)
    | inr e ↦ rw e (inr (refl, refl), Rewritten-update f c xs)
  ]
