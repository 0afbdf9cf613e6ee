-- ===== src/Trips/Schedule.antt =====
-- Whatever the calls, a bus is on one trip at a time.
use voyagi.Prelude.{
  ℕ, ◌+◌, Bool, true, false, List, [], ◌∷◌, ◌++◌, none, some, ◌≡◌, refl, sym, subst, arith, any,
  all, find, update, update_absent, any_absent, any-found, ◌&&◌, ◌||◌, not, ◌==◌, ltb, Bool-cases,
  Option-cases, inl, inr,
}
use voyagi.Store.Network.{TripRow}
use voyagi.Store.Rows.{Db}
use voyagi.Trips.Repository.{
  is_live, overlaps, has_valid_times, trip_violation, write_violation, new_trip, insert_trip,
  TripInsert, change_trip,
}

-- Two trips share their id, or both are live and on one bus at one time.
abbrev pub clashes : TripRow → TripRow → Bool
clashes t u = t.id == u.id || (is_live t && is_live u && overlaps t u)

abbrev pub NoClash : List TripRow → Type 0
NoClash [] = Unit {0}
NoClash (t ∷ ts) = (any (clashes t) ts ≡ false) × NoClash ts

pub record IsScheduled (db : Db) : Type 0 where
  pub apart : NoClash db.trips
  pub timed : all has_valid_times db.trips ≡ true
  pub below : all (λ t. ltb t.id db.next_id) db.trips ≡ true

-- The other rows that the exclusion constraint looks at.
abbrev excluded : TripRow → TripRow → Bool
excluded t u = not (u.id == t.id) && is_live u && overlaps t u

-- What a row that is written satisfies.
record Written (db : Db) (t : TripRow) : Type 0 where
  timed : has_valid_times t ≡ true
  free : (is_live t && any (excluded t) db.trips) ≡ false

violation-Written :
    (staff : Bool) (db : Db) (t : TripRow) → write_violation staff db t ≡ none → Written db t
unfolding trip_violation
violation-Written staff db t h = record { timed = ground (arith, h); free = ground (arith, h) }

no_overlap :
    (t : TripRow) (ts : List TripRow)
    → (is_live t && any (excluded t) ts) ≡ false
    → any (λ u. is_live t && excluded t u) ts ≡ false
no_overlap t [] h = refl
no_overlap t (u ∷ ts) h = ground (arith, h, no_overlap t ts)

-- A new trip behind the others.
module _ (new : TripRow) where
  any-clashes-append :
      (t : TripRow) (ts : List TripRow)
      → any (clashes t) (ts ++ new ∷ []) ≡ (any (clashes t) ts || clashes t new)
  any-clashes-append t [] = ground arith
  any-clashes-append t (u ∷ ts) = ground (arith, any-clashes-append t ts)

  clashes-new :
      (t : TripRow)
      → ltb t.id new.id ≡ true
      → (is_live new && excluded new t) ≡ false
      → clashes t new ≡ false
  clashes-new t b h = ground (arith, b, h)

  NoClash-append :
      (ts : List TripRow)
      → all (λ t. ltb t.id new.id) ts ≡ true
      → any (λ u. is_live new && excluded new u) ts ≡ false
      → NoClash ts
      → NoClash (ts ++ new ∷ [])
  NoClash-append [] b h d = (refl, tt)
  NoClash-append (t ∷ ts) b h d = (
    rw (any-clashes-append t ts, d.0, clashes-new t (ground (arith, b)) (ground (arith, h))) refl,
    NoClash-append ts (ground (arith, b)) (ground (arith, h)) d.1,
  )

  all-timed-append :
      (ts : List TripRow)
      → has_valid_times new ≡ true
      → all has_valid_times ts ≡ true
      → all has_valid_times (ts ++ new ∷ []) ≡ true
  all-timed-append [] n h = rw n refl
  all-timed-append (t ∷ ts) n h = ground (arith, h, all-timed-append ts n)

  all-below-append :
      (ts : List TripRow)
      → all (λ t. ltb t.id new.id) ts ≡ true
      → all (λ t. ltb t.id (new.id + 1)) (ts ++ new ∷ []) ≡ true
  all-below-append [] h = ground arith
  all-below-append (t ∷ ts) h = ground (arith, h, all-below-append ts)

pub insert_trip-IsScheduled :
    (now c : ℕ) (i : TripInsert) (db : Db) → IsScheduled db → IsScheduled (insert_trip now c i db).1
unfolding insert_trip
insert_trip-IsScheduled now c i db v =
    let new = new_trip now db.next_id c i in
    elim (Option-cases (write_violation true db new)) [
      | inr (e, bad) ↦ rw (insert_trip, bad) v
      | inl good ↦
          let w = violation-Written true db new good in
          rw (insert_trip, good)
            (record {
              apart = NoClash-append new db.trips v.below (no_overlap new db.trips w.free) v.apart;
              timed = all-timed-append new db.trips w.timed v.timed;
              below = all-below-append new db.trips v.below;
            })
    ]

-- A change of the one trip that a clause selects.
module _ (p : TripRow → Bool) (f : TripRow → TripRow) (k : ℕ)
    (keyed : (t : TripRow) → p t ≡ true → t.id ≡ k) (same : (t : TripRow) → (f t).id ≡ t.id) where
  alone :
      (t : TripRow) (ts : List TripRow) → p t ≡ true → any (clashes t) ts ≡ false → any p ts ≡ false
  alone t ts e h = any_absent p (clashes t) (λ u g. ground (arith, keyed t e, keyed u g)) ts h

  found_head :
      (t : TripRow) (ts : List TripRow) {old : TripRow}
      → p t ≡ true
      → find p (t ∷ ts) ≡ some old
      → t ≡ old
  found_head t ts e h = ground (arith, e, h)

  any-clashes-update :
      (x : TripRow) (ts : List TripRow) {old : TripRow}
      → NoClash ts
      → find p ts ≡ some old
      → any (clashes x) ts ≡ false
      → clashes x (f old) ≡ false
      → any (clashes x) (update p f ts) ≡ false
  any-clashes-update x [] d h a c = absurd cc
  any-clashes-update x (t ∷ ts) {old} d h a c = elim (Bool-cases (p t)) [
    | inl e ↦
        rw (e, update_absent p f ts (alone t ts e d.0), found_head t ts e h, c) (ground (arith, a))
    | inr e ↦
        rw e (ground (arith, a, any-clashes-update x ts d.1 (rw e at h) (ground (arith, a)) c))
  ]

  -- A row that was apart from the old one, and that the new one does not exclude, is apart from it.
  apart_changed :
      (x old : TripRow)
      → clashes x old ≡ false
      → (is_live (f old) && excluded (f old) x) ≡ false
      → clashes x (f old) ≡ false
  apart_changed x old a h = ground (arith, a, h, same old)

  apart_behind :
      (x old : TripRow)
      → clashes old x ≡ false
      → (is_live (f old) && excluded (f old) x) ≡ false
      → clashes (f old) x ≡ false
  apart_behind x old a h = ground (arith, a, h, same old)

  any-apart_behind :
      (old : TripRow) (ts : List TripRow)
      → any (clashes old) ts ≡ false
      → any (λ u. is_live (f old) && excluded (f old) u) ts ≡ false
      → any (clashes (f old)) ts ≡ false
  any-apart_behind old [] a h = refl
  any-apart_behind old (t ∷ ts) a h = ground (
    arith,
    apart_behind t old (ground (arith, a)) (ground (arith, h)),
    any-apart_behind old ts (ground (arith, a)) (ground (arith, h)),
  )

  NoClash-update :
      (ts : List TripRow) {old : TripRow}
      → find p ts ≡ some old
      → any (λ u. is_live (f old) && excluded (f old) u) ts ≡ false
      → NoClash ts
      → NoClash (update p f ts)
  NoClash-update [] h x d = tt
  NoClash-update (t ∷ ts) {old} h x d = elim (Bool-cases (p t)) [
    | inl e ↦
        let head : t ≡ old = found_head t ts e h in
        let behind = any-apart_behind t ts d.0 (
          subst (λ o. any (λ u. is_live (f o) && excluded (f o) u) ts ≡ false) (sym head)
            (ground (arith, x))) in
        rw (e, update_absent p f ts (alone t ts e d.0)) (behind, d.1)
    | inr e ↦
        let later = rw e at h in
        let before = any-found p (clashes t) ts d.0 later in
        rw e (
          any-clashes-update t ts d.1 later d.0 (apart_changed t old before (ground (arith, x))),
          NoClash-update ts later (ground (arith, x)) d.1,
        )
  ]

  all-update :
      (q : TripRow → Bool) (ts : List TripRow) {old : TripRow}
      → NoClash ts
      → find p ts ≡ some old
      → q (f old) ≡ true
      → all q ts ≡ true
      → all q (update p f ts) ≡ true
  all-update q [] d h n a = refl
  all-update q (t ∷ ts) {old} d h n a = elim (Bool-cases (p t)) [
    | inl e ↦
        rw (e, update_absent p f ts (alone t ts e d.0), found_head t ts e h, n) (ground (arith, a))
    | inr e ↦ rw e (ground (arith, a, all-update q ts d.1 (rw e at h) n))
  ]

  all-below-update :
      (n : ℕ) (ts : List TripRow)
      → all (λ t. ltb t.id n) ts ≡ true
      → all (λ t. ltb t.id n) (update p f ts) ≡ true
  all-below-update n [] h = refl
  all-below-update n (t ∷ ts) h = ground (arith, same t, h, all-below-update n ts)

  pub change_trip-IsScheduled :
      (staff : Bool) (db : Db) → IsScheduled db → IsScheduled (change_trip staff p f db).1
  unfolding change_trip
  change_trip-IsScheduled staff db v = elim (Option-cases (find p db.trips)) [
    | inl e ↦ rw (change_trip, e) v
    | inr (old, e) ↦ elim (Option-cases (write_violation staff db (f old))) [
      | inr (x, bad) ↦ rw (change_trip, e, bad) v
      | inl good ↦
          let w = violation-Written staff db (f old) good in
          rw (change_trip, e, good)
            (record {
              apart = NoClash-update db.trips e (no_overlap (f old) db.trips w.free) v.apart;
              timed = all-update has_valid_times db.trips v.apart e w.timed v.timed;
              below = all-below-update db.next_id db.trips v.below;
            })
    ]
  ]
