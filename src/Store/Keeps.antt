-- ===== src/Store/Keeps.antt =====
-- A property of the database that a call keeps, whether it returns or throws.
use voyagi.Prelude.{Bool, true, false, Option, none, some, ◌≡◌, refl, arith, if◌then◌else◌}
use voyagi.Store.Rows.{Db}
use voyagi.Store.Monad.{
  Error, Result, ok, err, M, pure, throw, gets, or_throw, throw_if, on_unique, on_unique_result,
  settle_transaction, transaction, continue, ◌>>=◌, ◌>>◌,
}

-- A call relates the database before it to the one after it.
pub record Keeps {A : Type 0} (R : Db → Db → Type 0) (m : M A) : Type 0 where
  pub kept : (db : Db) → R db (m db).1

-- A relation that holds of a database and itself, and along a chain of calls.
pub record IsPreorder (R : Db → Db → Type 0) : Type 0 where
  pub same : (a : Db) → R a a
  pub chain : (a b c : Db) → R a b → R b c → R a c

module _ {R : Db → Db → Type 0} (o : IsPreorder R) where
  module _ {A : Type 0} where
    pub Keeps-pure : (a : A) → Keeps R (pure a)
    unfolding pure
    Keeps-pure a = record { kept = o.same }

    pub Keeps-throw : (e : Error) → Keeps R (throw {A = A} e)
    unfolding throw
    Keeps-throw e = record { kept = o.same }

    pub Keeps-gets : (f : Db → A) → Keeps R (gets f)
    unfolding gets
    Keeps-gets f = record { kept = o.same }

    pub Keeps-or_throw : (v : Option A) (e : Error) → Keeps R (or_throw v e)
    unfolding or_throw
    Keeps-or_throw none e = record { kept = o.same }
    Keeps-or_throw (some a) e = record { kept = o.same }

    pub Keeps-if : (c : Bool) (m k : M A) → Keeps R m → Keeps R k → Keeps R (if c then m else k)
    Keeps-if true m k h j = h
    Keeps-if false m k h j = j

    on_unique-db : (e : Error) (x : Result A × Db) → (on_unique_result e x).1 ≡ x.1
    on_unique-db e (ok a, db) = refl
    on_unique-db e (err x, db) = ground arith

    pub Keeps-on_unique : (e : Error) (m : M A) → Keeps R m → Keeps R (on_unique e m)
    unfolding on_unique
    Keeps-on_unique e m h = record { kept = λ db. rw (on_unique-db e (m db)) (h.kept db) }

    settle_step : (db : Db) (x : Result A × Db) → R db x.1 → R db (settle_transaction db x).1
    unfolding settle_transaction
    settle_step db (ok a, db') h = h
    settle_step db (err e, db') h = o.same db

    pub Keeps-transaction : (m : M A) → Keeps R m → Keeps R (transaction m)
    unfolding transaction
    Keeps-transaction m h = record { kept = λ db. settle_step db (m db) (h.kept db) }

  pub Keeps-throw_if : (c : Bool) (e : Error) → Keeps R (throw_if c e)
  unfolding throw_if
  Keeps-throw_if c e = record { kept = o.same }

  module _ {A B : Type 0} where
    bind_step :
        (f : A → M B) (db : Db) (x : Result A × Db)
        → R db x.1
        → ((a : A) → Keeps R (f a))
        → R db (continue f x).1
    unfolding continue
    bind_step f db (ok a, db') h k = o.chain db db' _ h ((k a).kept db')
    bind_step f db (err e, db') h k = h

    pub Keeps->>= :
        (m : M A) (f : A → M B) → Keeps R m → ((a : A) → Keeps R (f a)) → Keeps R (m >>= f)
    unfolding ◌>>=◌
    Keeps->>= m f h k = record { kept = λ db. bind_step f db (m db) (h.kept db) k }

    pub Keeps->> : (m : M A) (k : M B) → Keeps R m → Keeps R k → Keeps R (m >> k)
    unfolding ◌>>◌
    Keeps->> m k h j = record { kept = λ db. bind_step (λ _. k) db (m db) (h.kept db) (λ _. j) }

pub ruleset keeping = (
  Keeps-pure, Keeps-throw, Keeps-gets, Keeps-or_throw, Keeps-if, Keeps-on_unique, Keeps-transaction,
  Keeps-throw_if, Keeps->>=, Keeps->>,
)
