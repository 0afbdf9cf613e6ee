-- ===== src/Payments/Replay.antt =====
-- A creation that is sent again under its key.
use voyagi.Prelude.{
  ℕ, Bool, true, false, ◌&&◌, ◌==◌, ==_refl, leb, List, [], ◌∷◌, ◌++◌, none, some, ◌≡◌, refl, sym,
  subst, arith, find, any, update, is_none, Bool-cases, Option-cases, inl, inr,
}
use voyagi.Store.Enums.{PaymentMethod}
use voyagi.Store.Rows.{Db, BookingRow, IdempotencyRow}
use voyagi.Store.Monad.{Result, ok, err, M, ◌>>=◌, ◌>>◌, continue, notation}
use voyagi.Store.Keeps.{Keeps, keeping}
use voyagi.Payments.Types.{PayableBooking, Payment, IdempotencyClaim, claimed, conflict, replay}
use voyagi.Payments.Repository.{
  claim_idempotency, complete_idempotency, completed, reopened, first_claim, is_payment_key,
  find_payment,
}
use voyagi.Payments.Service.{PaymentsService, create_claimed, after_claim, create_new, load_payment}
use voyagi.Payments.SameKeys.{
  SameKeys, SameKeys-preorder, appends-SameKeys, allocate-SameKeys, initiate-SameKeys,
}

module _ (s : PaymentsService) (b : PayableBooking) (actor key fingerprint : ℕ)
    (method : PaymentMethod) (reach : BookingRow → Bool) where
  abbrev pub of_key : IdempotencyRow → Bool
  of_key = is_payment_key b.company_id actor key

  -- What a creation leaves under its key: the payment that it returned.
  record Recorded (p : Payment) (db : Db) : Type 0 where
    row : IdempotencyRow
    payment_id : ℕ
    under : find of_key db.idempotency ≡ some row
    same_request : row.request_fingerprint ≡ fingerprint
    done : row.payment_id ≡ some payment_id
    loaded : find_payment reach payment_id db ≡ some p

  unexpired :
      (now : ℕ) (rs : List IdempotencyRow) (r : IdempotencyRow)
      → find of_key rs ≡ some r
      → any (λ r. of_key r && leb r.expires_at now) rs ≡ false
      → leb r.expires_at now ≡ false
  unexpired now [] r f h = absurd cc
  unexpired now (q ∷ rs) r f h = elim (Bool-cases (of_key q)) [
    | inl e ↦ ground (arith, e, f, h)
    | inr e ↦ unexpired now rs r (rw e at f) (rw e at h)
  ]

  claims_replay :
      (t : PaymentsService) (p : Payment) (db : Db) (r : Recorded p db)
      → any (λ r. of_key r && leb r.expires_at t.now) db.idempotency ≡ false
      → claim_idempotency t.now b.company_id actor key fingerprint db
        ≡ (ok (replay r.payment_id), db)
  unfolding claim_idempotency
  claims_replay t p db r open_ = ground (
    arith,
    r.under,
    unexpired t.now db.idempotency r.row r.under open_,
    r.same_request,
    r.done,
    ==_refl fingerprint,
  )

  -- A record that has not expired is replayed.
  Recorded-again :
      (t : PaymentsService) (p : Payment) (db : Db)
      → Recorded p db
      → any (λ r. of_key r && leb r.expires_at t.now) db.idempotency ≡ false
      → create_claimed t b actor key fingerprint method reach db ≡ (ok p, db)
  unfolding create_claimed after_claim load_payment notation
  Recorded-again t p db r open_ = rw (claims_replay t p db r open_, r.loaded) refl

  -- The key is claimed, and no payment stands under it yet.
  record Pending (db : Db) : Type 0 where
    row : IdempotencyRow
    under : find of_key db.idempotency ≡ some row
    same_request : row.request_fingerprint ≡ fingerprint
    open_ : row.payment_id ≡ none

  Pending-same : (a b : Db) → SameKeys a b → Pending a → Pending b
  Pending-same a b h p = record {
    row = p.row;
    under = rw h p.under;
    same_request = p.same_request;
    open_ = p.open_;
  }

  record Records (m : M Payment) : Type 0 where
    recorded : (db : Db) → Pending db → (p : Payment) → (m db).0 ≡ ok p → Recorded p (m db).1

  module _ {A : Type 0} where
    bind_records :
        (f : A → M Payment) (x : Result A × Db) (p : Payment)
        → Pending x.1
        → ((a : A) → Records (f a))
        → (continue f x).0 ≡ ok p
        → Recorded p (continue f x).1
    unfolding continue
    bind_records f (ok a, db) p h k e = (k a).recorded db h p e
    bind_records f (err o, db) p h k e = absurd (ground (arith, e))

    Records->>= :
        (m : M A) (f : A → M Payment)
        → Keeps SameKeys m
        → ((a : A) → Records (f a))
        → Records (m >>= f)
    unfolding ◌>>=◌
    Records->>= m f h k = record {
      recorded = λ db w p. bind_records f (m db) p (Pending-same db (m db).1 (h.kept db) w) k;
    }

    Records->> : (m : M A) (k : M Payment) → Keeps SameKeys m → Records k → Records (m >> k)
    unfolding ◌>>◌
    Records->> m k h j = record {
      recorded = λ db w p.
          bind_records (λ _. k) (m db) p (Pending-same db (m db).1 (h.kept db) w) (λ _. j);
    }

  found-completed :
      (now booking payment : ℕ) (rs : List IdempotencyRow) (r : IdempotencyRow)
      → find of_key rs ≡ some r
      → r.payment_id ≡ none
      → find of_key
          (update (λ r. of_key r && is_none r.payment_id) (completed now booking payment) rs)
        ≡ some (completed now booking payment r)
  found-completed now booking payment [] r f h = absurd cc
  found-completed now booking payment (q ∷ rs) r f h = elim (Bool-cases (of_key q)) [
    | inl e ↦ ground (arith, e, f, h)
    | inr e ↦ ground (arith, e, found-completed now booking payment rs r (rw e at f) h)
  ]

  load_step :
      (payment : ℕ) (db : Db) (p : Payment)
      → (load_payment s reach payment db).0 ≡ ok p
      → (find_payment reach payment db ≡ some p) × ((load_payment s reach payment db).1 ≡ db)
  unfolding load_payment notation
  load_step payment db p h = elim (Option-cases (find_payment reach payment db)) [
    | inl e ↦ absurd (ground (arith, e, h))
    | inr (q, e) ↦ ground (arith, e, h)
  ]

  completes-Records :
      (payment : ℕ)
      → Records (
          complete_idempotency s.now b.company_id actor key b.booking_id payment
          >> load_payment s reach payment)
  unfolding complete_idempotency notation
  completes-Records payment = record {
    recorded = λ db w p h.
        let db' = (complete_idempotency s.now b.company_id actor key b.booking_id payment db).1 in
        let (l, same) = load_step payment db' p h in
        subst (Recorded p) (sym same) (record {
          row = completed s.now b.booking_id payment w.row;
          payment_id = payment;
          under = found-completed s.now b.booking_id payment db.idempotency w.row w.under w.open_;
          same_request = w.same_request;
          done = refl;
          loaded = l;
        });
  }

  create_new-Records : Records (create_new s b actor key method reach)
  unfolding create_new
  create_new-Records =
      search
        (
          Records->>=, Records->>, keeping, SameKeys-preorder, allocate-SameKeys, appends-SameKeys,
          initiate-SameKeys, completes-Records,
        )
        depth 20

  found-added :
      (rs : List IdempotencyRow) (r : IdempotencyRow)
      → find of_key rs ≡ none
      → of_key r ≡ true
      → find of_key (rs ++ r ∷ []) ≡ some r
  found-added [] r f h = ground (arith, h)
  found-added (q ∷ rs) r f h = ground (arith, f, found-added rs r (ground (arith, f)) h)

  found-reopened :
      (now : ℕ) (rs : List IdempotencyRow) (r : IdempotencyRow)
      → find of_key rs ≡ some r
      → find of_key (update of_key (reopened now fingerprint) rs)
        ≡ some (reopened now fingerprint r)
  found-reopened now [] r f = absurd cc
  found-reopened now (q ∷ rs) r f = elim (Bool-cases (of_key q)) [
    | inl e ↦ ground (arith, e, f)
    | inr e ↦ ground (arith, e, found-reopened now rs r (rw e at f))
  ]

  -- A claim is new, is refused, or names the payment that stands under the key.
  claim_cases :
      (P : Result IdempotencyClaim × Db → Type 0) (db : Db)
      → ((db1 : Db) → Pending db1 → P (ok claimed, db1))
      → P (ok conflict, db)
      → ((r : IdempotencyRow) (payment : ℕ)
          → find of_key db.idempotency ≡ some r
          → r.request_fingerprint ≡ fingerprint
          → r.payment_id ≡ some payment
          → P (ok (replay payment), db))
      → P (claim_idempotency s.now b.company_id actor key fingerprint db)
  unfolding claim_idempotency
  claim_cases P db new refused old = elim (Option-cases (find of_key db.idempotency)) [
    | inl f ↦
        rw (f, claim_idempotency)
          (new _ (record {
            row = first_claim s.now b.company_id actor key fingerprint;
            under =
                found-added db.idempotency _ f
                  (ground (arith, ==_refl b.company_id, ==_refl actor, ==_refl key));
            same_request = refl;
            open_ = refl;
          }))
    | inr (r, f) ↦ elim (Bool-cases (leb r.expires_at s.now)) [
      | inl e ↦
          rw (f, e, claim_idempotency)
            (new _ (record {
              row = reopened s.now fingerprint r;
              under = found-reopened s.now db.idempotency r f;
              same_request = refl;
              open_ = refl;
            }))
      | inr e ↦ elim (Bool-cases (r.request_fingerprint == fingerprint)) [
        | inr d ↦ rw (f, e, d, claim_idempotency) refused
        | inl d ↦ elim (Option-cases r.payment_id) [
          | inl n ↦ rw (f, e, d, n, claim_idempotency) refused
          | inr (payment, g) ↦
              rw (f, e, d, g, claim_idempotency) (old r payment f (ground (arith, d)) g)
        ]
      ]
    ]
  ]

  replayed-Recorded :
      (db : Db) (r : IdempotencyRow) (payment : ℕ) (p : Payment)
      → find of_key db.idempotency ≡ some r
      → r.request_fingerprint ≡ fingerprint
      → r.payment_id ≡ some payment
      → (load_payment s reach payment db).0 ≡ ok p
      → Recorded p (load_payment s reach payment db).1
  replayed-Recorded db r payment p f e g h =
      let (l, same) = load_step payment db p h in
      subst (Recorded p) (sym same) (record {
        row = r;
        payment_id = payment;
        under = f;
        same_request = e;
        done = g;
        loaded = l;
      })

  create_claimed-Recorded :
      (db : Db) (p : Payment)
      → (create_claimed s b actor key fingerprint method reach db).0 ≡ ok p
      → Recorded p (create_claimed s b actor key fingerprint method reach db).1
  unfolding create_claimed after_claim notation
  create_claimed-Recorded db p =
      claim_cases
        (λ x.
          (continue (after_claim s b actor key method reach) x).0 ≡ ok p
          → Recorded p (continue (after_claim s b actor key method reach) x).1)
        db (λ db1 w h. create_new-Records.recorded db1 w p h) (λ h. absurd (ground (arith, h)))
        (λ r payment f e g h. replayed-Recorded db r payment p f e g h)

  -- A creation that has returned a payment returns the same payment when the request is sent again
  -- under its key, at any time before the record of the key expires, and the database stays as the
  -- first request left it.
  pub create_claimed_replayed :
      (t : PaymentsService) (db : Db) (p : Payment)
      → (create_claimed s b actor key fingerprint method reach db).0 ≡ ok p
      → any
          (λ r. of_key r && leb r.expires_at t.now)
          (create_claimed s b actor key fingerprint method reach db).1.idempotency
        ≡ false
      → create_claimed t b actor key fingerprint method reach
          (create_claimed s b actor key fingerprint method reach db).1
        ≡ (ok p, (create_claimed s b actor key fingerprint method reach db).1)
  create_claimed_replayed t db p h open_ =
      Recorded-again t p (create_claimed s b actor key fingerprint method reach db).1
        (create_claimed-Recorded db p h) open_
