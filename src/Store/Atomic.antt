-- ===== src/Store/Atomic.antt =====
-- Calls that leave the database alone when they throw: reads, and what runs in a transaction.
use voyagi.Prelude.{◌≡◌, refl, ◌∙◌, arith}
use voyagi.Store.Rows.{Db}
use voyagi.Store.Monad.{
  Error, Result, ok, err, M, pure, settle_transaction, transaction, continue, ◌>>=◌, ◌>>◌,
}
use voyagi.Store.Keeps.{Keeps, IsPreorder}

abbrev pub Same : Db → Db → Type 0
Same a b = b ≡ a

pub Same-preorder : IsPreorder Same
Same-preorder = record { same = λ a. refl; chain = λ a b c p q. q ∙ p }

pub record IsAtomic {A : Type 0} (m : M A) : Type 0 where
  pub rolls_back : (db : Db) (e : Error) → (m db).0 ≡ err e → (m db).1 ≡ db

module _ {A : Type 0} where
  settle_back :
      (db : Db) (e : Error) (x : Result A × Db)
      → (settle_transaction db x).0 ≡ err e
      → (settle_transaction db x).1 ≡ db
  unfolding settle_transaction
  settle_back db e (ok a, db') h = ground arith
  settle_back db e (err o, db') h = refl

  pub IsAtomic-transaction : (m : M A) → IsAtomic (transaction m)
  unfolding transaction
  IsAtomic-transaction m = record { rolls_back = λ db e. settle_back db e (m db) }

  forget_back :
      (db : Db) (e : Error) (x : Result A × Db)
      → ((o : Error) → x.0 ≡ err o → x.1 ≡ db)
      → (continue (λ _. pure tt) x).0 ≡ err e
      → (continue (λ _. pure tt) x).1 ≡ db
  unfolding continue pure
  forget_back db e (ok a, db') r h = ground arith
  forget_back db e (err o, db') r h = r o refl

  pub IsAtomic-forget : (m : M A) → IsAtomic m → IsAtomic (m >> pure tt)
  unfolding ◌>>◌
  IsAtomic-forget m h = record { rolls_back = λ db e. forget_back db e (m db) (h.rolls_back db) }

module _ {A B : Type 0} where
  bind_back :
      (f : A → M B) (db : Db) (e : Error) (x : Result A × Db)
      → x.1 ≡ db
      → ((a : A) → IsAtomic (f a))
      → (continue f x).0 ≡ err e
      → (continue f x).1 ≡ db
  unfolding continue
  bind_back f db e (ok a, db') s k h = (k a).rolls_back db' e h ∙ s
  bind_back f db e (err o, db') s k h = s

  pub IsAtomic->>= :
      (m : M A) (f : A → M B) → Keeps Same m → ((a : A) → IsAtomic (f a)) → IsAtomic (m >>= f)
  unfolding ◌>>=◌
  IsAtomic->>= m f h k = record { rolls_back = λ db e. bind_back f db e (m db) (h.kept db) k }

  pub IsAtomic->> : (m : M A) (k : M B) → Keeps Same m → IsAtomic k → IsAtomic (m >> k)
  unfolding ◌>>◌
  IsAtomic->> m k h j = record {
    rolls_back = λ db e. bind_back (λ _. k) db e (m db) (h.kept db) (λ _. j);
  }
