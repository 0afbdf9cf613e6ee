-- ===== src/Prelude/Tables.antt =====
-- Lists as the code uses them: arrays with `some`, `filter` and `includes`, and tables with the
-- `WHERE` clauses of the repositories.
use Prim.Native.Nat.{ℕ, zero, suc}
use mathlib.Core.Path.{◌≡◌, refl, ap}
use mathlib.Core.Bool.{Bool, true, false, ◌&&◌, ◌||◌}
use mathlib.Core.Option.{Option, none, some}
use mathlib.Core.List.{List, [], ◌∷◌, ◌++◌}
use native.Mathlib.Omega.{arith}
use mathlib.Core.Logic.{inl, inr}
use voyagi.Prelude.Tests.{◌==◌, if◌then◌else◌, Bool-cases}

module _ {ℓ} {A : Type ℓ} where
  abbrev pub length : List A → ℕ
  length [] = 0
  length (x ∷ xs) = suc (length xs)

  -- `xs.some(p)`, `EXISTS`
  abbrev pub any : (A → Bool) → List A → Bool
  any p [] = false
  any p (x ∷ xs) = p x || any p xs

  abbrev pub all : (A → Bool) → List A → Bool
  all p [] = true
  all p (x ∷ xs) = p x && all p xs

  -- The first row that a `WHERE` clause selects.
  abbrev pub find : (A → Bool) → List A → Option A
  find p [] = none
  find p (x ∷ xs) = if p x then some x else find p xs

  -- `xs.filter(p)`
  abbrev pub select : (A → Bool) → List A → List A
  select p [] = []
  select p (x ∷ xs) = if p x then x ∷ select p xs else select p xs

  -- `UPDATE … SET f WHERE p`
  abbrev pub update : (A → Bool) → (A → A) → List A → List A
  update p f [] = []
  update p f (x ∷ xs) = (if p x then f x else x) ∷ update p f xs

  -- `ORDER BY`, where `le` compares two rows.
  abbrev pub insert_by : (A → A → Bool) → A → List A → List A
  insert_by le x [] = x ∷ []
  insert_by le x (y ∷ ys) = if le x y then x ∷ y ∷ ys else y ∷ insert_by le x ys

  abbrev pub order_by : (A → A → Bool) → List A → List A
  order_by le [] = []
  order_by le (x ∷ xs) = insert_by le x (order_by le xs)

  -- `LIMIT` and `OFFSET`
  abbrev pub take : ℕ → List A → List A
  take n [] = []
  take zero (x ∷ xs) = []
  take (suc n) (x ∷ xs) = x ∷ take n xs

  abbrev pub drop : ℕ → List A → List A
  drop n [] = []
  drop zero (x ∷ xs) = x ∷ xs
  drop (suc n) (x ∷ xs) = drop n xs

-- `xs.includes(a)`
abbrev pub includes : List ℕ → ℕ → Bool
includes [] a = false
includes (x ∷ xs) a = a == x || includes xs a

-- `set.add(a)`, for a set that lists its items in the order of insertion.
abbrev pub add : ℕ → List ℕ → List ℕ
add a xs = if includes xs a then xs else xs ++ a ∷ []

includes-append :
    (xs ys : List ℕ) (a : ℕ) → includes (xs ++ ys) a ≡ (includes xs a || includes ys a)
includes-append [] ys a = refl
includes-append (x ∷ xs) ys a = ground (arith, includes-append xs ys a)

includes-add : (xs : List ℕ) (a b : ℕ) → includes (add a xs) b ≡ (b == a || includes xs b)
includes-add xs a b = ground (arith, includes-append xs (a ∷ []) b)

-- `for (const x of xs) set.add(x)`
abbrev pub add_all : List ℕ → List ℕ → List ℕ
add_all [] set = set
add_all (x ∷ xs) set = add_all xs (add x set)

pub includes-add_all :
    (xs set : List ℕ) (a : ℕ) → includes (add_all xs set) a ≡ (includes set a || includes xs a)
includes-add_all [] set a = ground arith
includes-add_all (x ∷ xs) set a =
    ground (arith, includes-add_all xs (add x set) a, includes-add set x a)

-- What the clauses say of each other, for a table and the table after an update.
pub find-any :
    {A : Type 0} (p : A → Bool) (xs : List A) → any p xs ≡ true → (x : A) × (find p xs ≡ some x)
find-any p [] h = absurd cc
find-any p (x ∷ xs) h = elim (Bool-cases (p x)) [
  | inl e ↦ (x, rw e refl)
  | inr e ↦ let (y, f) = find-any p xs (rw e at h) in (y, rw e f)
]

pub find_absent : {A : Type 0} (p : A → Bool) (xs : List A) → any p xs ≡ false → find p xs ≡ none
find_absent p [] h = refl
find_absent p (x ∷ xs) h = ground (arith, find_absent p xs)

pub update_absent :
    {A : Type 0} (p : A → Bool) (f : A → A) (xs : List A) → any p xs ≡ false → update p f xs ≡ xs
update_absent p f [] h = refl
update_absent p f (x ∷ xs) h = ground (arith, update_absent p f xs)

-- An update that makes its rows fall out of a clause leaves none that was in both.
pub update_clears :
    {A : Type 0} (p q : A → Bool) (f : A → A)
    → ((x : A) → q x ≡ true → p x ≡ true)
    → ((x : A) → p x ≡ true → q (f x) ≡ false)
    → (xs : List A) → any q (update p f xs) ≡ false
update_clears p q f in_ out [] = refl
update_clears p q f in_ out (x ∷ xs) = elim (Bool-cases (p x)) [
  | inl e ↦ rw (e, out x e) (update_clears p q f in_ out xs)
  | inr e ↦ elim (Bool-cases (q x)) [
    | inl g ↦ absurd (ground (arith, in_ x g, e))
    | inr g ↦ rw (e, g) (update_clears p q f in_ out xs)
  ]
]

-- One that makes them fall into a clause leaves one there, if it changed any.
pub update_reaches :
    {A : Type 0} (p q : A → Bool) (f : A → A)
    → ((x : A) → p x ≡ true → q (f x) ≡ true)
    → (xs : List A) → any p xs ≡ true
    → any q (update p f xs) ≡ true
update_reaches p q f in_ [] h = absurd cc
update_reaches p q f in_ (x ∷ xs) h = elim (Bool-cases (p x)) [
  | inl e ↦ rw (e, in_ x e) refl
  | inr e ↦ ground (arith, e, update_reaches p q f in_ xs (ground (arith, e, h)))
]

pub any_found :
    {A : Type 0} (p : A → Bool) (xs : List A) (y : A) → find p xs ≡ some y → any p xs ≡ true
any_found p [] y h = absurd cc
any_found p (x ∷ xs) y h = elim (Bool-cases (p x)) [
  | inl e ↦ rw e refl
  | inr e ↦ rw e (any_found p xs y (rw e at h))
]

-- What is in a clause after an update whose rows all fall into it.
pub any-update :
    {A : Type 0} (p q : A → Bool) (f : A → A)
    → ((x : A) → p x ≡ true → q (f x) ≡ true)
    → (xs : List A) → any q (update p f xs) ≡ (any p xs || any q xs)
any-update p q f in_ [] = refl
any-update p q f in_ (x ∷ xs) = elim (Bool-cases (p x)) [
  | inl e ↦ rw (e, in_ x e) refl
  | inr e ↦ rw (e, any-update p q f in_ xs) (ground arith)
]

abbrev pub map_option : {A B : Type 0} → (A → B) → Option A → Option B
map_option f none = none
map_option f (some a) = some (f a)

-- What a clause finds after an update that it does not look at.
pub find-update :
    {A : Type 0} (p q : A → Bool) (f : A → A)
    → ((x : A) → p (f x) ≡ p x)
    → (xs : List A) → find p (update q f xs) ≡ map_option (λ x. if q x then f x else x) (find p xs)
find-update p q f same [] = refl
find-update p q f same (x ∷ xs) = elim (Bool-cases (q x)) [
  | inl e ↦ ground (arith, e, same x, find-update p q f same xs)
  | inr e ↦ ground (arith, e, find-update p q f same xs)
]

-- A narrower clause finds the same row, where it holds of it.
pub find-&& :
    {A : Type 0} (p q : A → Bool) (xs : List A) {y : A}
    → find p xs ≡ some y
    → q y ≡ true
    → find (λ x. p x && q x) xs ≡ some y
find-&& p q [] h k = absurd cc
find-&& p q (x ∷ xs) h k = elim (Bool-cases (p x)) [
  | inl e ↦ ground (arith, e, h, k)
  | inr e ↦ rw e (find-&& p q xs (rw e at h) k)
]

-- What `find` returns is in the clause, and the table has it.
pub found_here : {A : Type 0} (p : A → Bool) (xs : List A) {y : A} → find p xs ≡ some y → p y ≡ true
found_here p [] h = absurd cc
found_here p (x ∷ xs) h = elim (Bool-cases (p x)) [
  | inl e ↦ ground (arith, e, h)
  | inr e ↦ found_here p xs (rw e at h)
]

-- What no row is in, the row found is not in.
pub any-found :
    {A : Type 0} (p q : A → Bool) (xs : List A) {y : A}
    → any q xs ≡ false
    → find p xs ≡ some y
    → q y ≡ false
any-found p q [] a h = absurd cc
any-found p q (x ∷ xs) a h = elim (Bool-cases (p x)) [
  | inl e ↦ ground (arith, e, h, a)
  | inr e ↦ any-found p q xs (ground (arith, a)) (rw e at h)
]

pub find_behind :
    {A : Type 0} (p : A → Bool) (xs ys : List A) → any p xs ≡ false → find p (xs ++ ys) ≡ find p ys
find_behind p [] ys h = refl
find_behind p (x ∷ xs) ys h = ground (arith, find_behind p xs ys)

pub find_before :
    {A : Type 0} (p : A → Bool) (xs ys : List A) {x : A}
    → find p xs ≡ some x
    → find p (xs ++ ys) ≡ some x
find_before p [] ys h = absurd cc
find_before p (x ∷ xs) ys h = elim (Bool-cases (p x)) [
  | inl e ↦ ground (arith, e, h)
  | inr e ↦ rw e (find_before p xs ys (rw e at h))
]

pub any_absent :
    {A : Type 0} (p q : A → Bool)
    → ((x : A) → p x ≡ true → q x ≡ true)
    → (xs : List A) → any q xs ≡ false
    → any p xs ≡ false
any_absent p q f [] h = refl
any_absent p q f (x ∷ xs) h = ground (arith, f x, h, any_absent p q f xs)

pub ++_behind : {A : Type 0} (xs ys : List A) (y : A) → (xs ++ y ∷ []) ++ ys ≡ xs ++ y ∷ ys
++_behind [] ys y = refl
++_behind (x ∷ xs) ys y = ap (λ r. x ∷ r) (++_behind xs ys y)

pub ++_nil : {A : Type 0} (xs : List A) → xs ≡ xs ++ []
++_nil [] = refl
++_nil (x ∷ xs) = ap (λ r. x ∷ r) (++_nil xs)
