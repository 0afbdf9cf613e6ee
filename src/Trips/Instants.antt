-- ===== src/Trips/Instants.antt =====
-- Where a bus is at an instant.
use voyagi.Prelude.{
  ℕ, Bool, true, false, List, [], ◌∷◌, some, ◌≡◌, arith, subst, any-found, find, ◌&&◌, ◌==◌, leb,
  ltb, Bool-cases, inl, inr, ◌⊎◌,
}
use voyagi.Store.Network.{TripRow}
use voyagi.Store.Rows.{Db}
use voyagi.Trips.Repository.{is_live}
use voyagi.Trips.Calls.{Call, trip_history}
use voyagi.Trips.Schedule.{IsScheduled, NoClash, clashes}
use voyagi.Trips.Timetable.{trip_history-IsScheduled}

in_front : {a b : TripRow} → some a ≡ some b → a ≡ b
in_front h = cc

-- Of two rows found by different ids, the one in front does not clash with the other.
apart_found :
    (ts : List TripRow) (j k : ℕ) {t u : TripRow}
    → NoClash ts
    → find (λ r. r.id == j) ts ≡ some t
    → find (λ r. r.id == k) ts ≡ some u
    → (j == k) ≡ false
    → (clashes t u ≡ false) ⊎ (clashes u t ≡ false)
apart_found [] j k n f g d = absurd (ground (arith, f))
apart_found (r ∷ ts) j k {t} {u} (a, n) f g d = elim (Bool-cases (r.id == j)) [
  | inl p ↦ elim (Bool-cases (r.id == k)) [
    | inl q ↦ absurd (ground (arith, p, q, d))
    | inr q ↦
        let e : r ≡ t = in_front (rw p at f) in
        inl (
          subst (λ z. clashes z u ≡ false) e
            (any-found (λ r. r.id == k) (clashes r) ts a (rw q at g)))
  ]
  | inr p ↦ elim (Bool-cases (r.id == k)) [
    | inl q ↦
        let e : r ≡ u = in_front (rw q at g) in
        inr (
          subst (λ z. clashes z t ≡ false) e
            (any-found (λ r. r.id == j) (clashes r) ts a (rw p at f)))
    | inr q ↦ apart_found ts j k n (rw p at f) (rw q at g) d
  ]
]

-- A trip is on the road at an instant.
abbrev pub is_underway : ℕ → TripRow → Bool
is_underway x t = leb t.departure_time x && ltb x t.estimated_arrival_time

-- Where the trips have distinct ids below the next one, no two live trips of a bus overlap, and each
-- trip closes its boarding before it departs and departs before it arrives, then after any calls no
-- two live trips with different ids and one bus are underway at the same instant.
pub bus_in_one_place :
    (cs : List Call) (db : Db) (j k x : ℕ) {t u : TripRow}
    → IsScheduled db
    → find (λ r. r.id == j) (trip_history cs db).trips ≡ some t
    → find (λ r. r.id == k) (trip_history cs db).trips ≡ some u
    → (j == k) ≡ false
    → t.bus_id ≡ u.bus_id
    → is_live t ≡ true
    → is_live u ≡ true
    → is_underway x t ≡ true
    → is_underway x u ≡ false
bus_in_one_place cs db j k x v f g d b l m w =
    elim (apart_found (trip_history cs db).trips j k (trip_history-IsScheduled cs db v).apart f g
      d) [ inl c ↦ ground (arith, b, l, m, w, c) | inr c ↦ ground (arith, b, l, m, w, c) ]
