-- ===== src/Trips/Timetable.antt =====
-- Whatever the calls, a bus is on one trip at a time, and trips that are over stay as they are.
use voyagi.Prelude.{
  ℕ, Bool, true, false, List, [], ◌∷◌, Option, some, ◌≡◌, refl, ◌∙◌, subst, arith, find, ◌||◌, ◌==◌,
  Option-cases, inl, inr, ◌⊎◌,
}
use voyagi.Store.Network.{
  TripRow, TripStatus, TripStatus-discrete, is_trip, trip_completed, trip_cancelled,
}
use voyagi.Store.Rows.{Db}
use voyagi.Store.Growth.{Grows, Grows-refl, Grows-append, Grows-update, Grows-trans, find-Grows}
use voyagi.Trips.Transitions.{TripAction, start, complete, cancel, trip_transitions}
use voyagi.Trips.Repository.{
  write_violation, new_trip, insert_trip, TripInsert, change_trip, update_details, updated_trip,
  is_editable, transition, transitioned_trip, is_source, append_trip_event, TripUpdate,
}
use voyagi.Trips.Calls.{Call, serve, trip_history, Kept, serve-kept}
use voyagi.Trips.Schedule.{IsScheduled, insert_trip-IsScheduled, change_trip-IsScheduled}

abbrev pub Preserves : Db → Db → Type 0
Preserves a b = IsScheduled a → IsScheduled b

edited-id : (c t v : ℕ) (r : TripRow) → is_editable c t v r ≡ true → r.id ≡ t
edited-id c t v r h = ground (arith, h)

moved-key :
    (c t : ℕ) (a : TripAction) (r : TripRow)
    → is_source c t (trip_transitions a) r ≡ true
    → r.id ≡ t
moved-key c t a r h = ground (arith, h)

moved-id :
    (now : ℕ) (a : TripAction) (r : TripRow)
    → (transitioned_trip now (trip_transitions a) r).id ≡ r.id
unfolding trip_transitions
moved-id now start r = refl
moved-id now complete r = refl
moved-id now cancel r = refl

pub Preserves-Kept : Kept Preserves
unfolding update_details transition append_trip_event
Preserves-Kept = record {
  preorder = record { same = λ a v. v; chain = λ a b c p q v. q (p v) };
  inserts = λ now c i. record { kept = insert_trip-IsScheduled now c i };
  updates = λ now c t v i closes. record {
    kept = λ db.
        change_trip-IsScheduled (is_editable c t v) (updated_trip now i closes) t (edited-id c t v)
          (λ r. refl) _ db;
  };
  moves = λ now c t a. record {
    kept = λ db.
        change_trip-IsScheduled (is_source c t (trip_transitions a))
          (transitioned_trip now (trip_transitions a)) t (moved-key c t a) (moved-id now a) false
          db;
  };
  appends = λ c t e a. record {
    kept = λ db v. record { apart = v.apart; timed = v.timed; below = v.below };
  };
}

-- Where the trips have distinct ids below the next one, no two live trips of a bus overlap, and each
-- trip closes its boarding before it departs and departs before it arrives, this holds after any calls
-- of the service, in any order, successful or not.
pub trip_history-IsScheduled :
    (cs : List Call) (db : Db) → IsScheduled db → IsScheduled (trip_history cs db)
unfolding trip_history
trip_history-IsScheduled [] db v = v
trip_history-IsScheduled (c ∷ cs) db v =
    trip_history-IsScheduled cs (serve c db).1 ((serve-kept Preserves-Kept c).kept db v)

-- A trip that is over.
abbrev pub is_final : TripStatus → Bool
is_final s = is_trip s trip_completed || is_trip s trip_cancelled

record Continues (x y : TripRow) : Type 0 where
  id : y.id ≡ x.id
  price_mru : y.price_mru ≡ x.price_mru
  currency : y.currency ≡ x.currency
  route_id : y.route_id ≡ x.route_id
  bus_id : y.bus_id ≡ x.bus_id
  over : (is_final x.status ≡ false) ⊎ (y ≡ x)

Continues-refl : (x : TripRow) → Continues x x
Continues-refl x = record {
  id = refl;
  price_mru = refl;
  currency = refl;
  route_id = refl;
  bus_id = refl;
  over = inr refl;
}

Continues-trans : (x y z : TripRow) → Continues x y → Continues y z → Continues x z
Continues-trans x y z a b = record {
  id = b.id ∙ a.id;
  price_mru = b.price_mru ∙ a.price_mru;
  currency = b.currency ∙ a.currency;
  route_id = b.route_id ∙ a.route_id;
  bus_id = b.bus_id ∙ a.bus_id;
  over = elim a.over [
    | inl n ↦ inl n
    | inr e ↦ elim b.over [
      | inl n ↦ inl (subst (λ r. is_final r.status ≡ false) e n)
      | inr g ↦ inr (g ∙ e)
    ]
  ];
}

edited-Continues :
    (now c t v : ℕ) (i : TripUpdate) (closes : Option ℕ) (r : TripRow)
    → is_editable c t v r ≡ true
    → Continues r (updated_trip now i closes r)
unfolding TripStatus-discrete
edited-Continues now c t v i closes r h = record {
  id = refl;
  price_mru = refl;
  currency = refl;
  route_id = refl;
  bus_id = refl;
  over = inl (ground (arith, h));
}

moved-Continues :
    (now c t : ℕ) (a : TripAction) (r : TripRow)
    → is_source c t (trip_transitions a) r ≡ true
    → Continues r (transitioned_trip now (trip_transitions a) r)
unfolding TripStatus-discrete trip_transitions
moved-Continues now c t start r h = record {
  id = refl;
  price_mru = refl;
  currency = refl;
  route_id = refl;
  bus_id = refl;
  over = inl (ground (arith, h));
}
moved-Continues now c t complete r h = record {
  id = refl;
  price_mru = refl;
  currency = refl;
  route_id = refl;
  bus_id = refl;
  over = inl (ground (arith, h));
}
moved-Continues now c t cancel r h = record {
  id = refl;
  price_mru = refl;
  currency = refl;
  route_id = refl;
  bus_id = refl;
  over = inl (ground (arith, h));
}

abbrev Evolves : Db → Db → Type 0
Evolves a b = Grows Continues a.trips b.trips

change_trip-Evolves :
    (staff : Bool) (p : TripRow → Bool) (f : TripRow → TripRow) (db : Db)
    → ((r : TripRow) → p r ≡ true → Continues r (f r))
    → Evolves db (change_trip staff p f db).1
unfolding change_trip
change_trip-Evolves staff p f db c = elim (Option-cases (find p db.trips)) [
  | inl e ↦ rw (change_trip, e) (Grows-refl Continues Continues-refl db.trips)
  | inr (old, e) ↦ elim (Option-cases (write_violation staff db (f old))) [
    | inr (x, bad) ↦ rw (change_trip, e, bad) (Grows-refl Continues Continues-refl db.trips)
    | inl good ↦ rw (change_trip, e, good) (Grows-update Continues Continues-refl p f c db.trips)
  ]
]

insert_trip-Evolves : (now c : ℕ) (i : TripInsert) (db : Db) → Evolves db (insert_trip now c i db).1
unfolding insert_trip
insert_trip-Evolves now c i db =
    elim (Option-cases (write_violation true db (new_trip now db.next_id c i))) [
      | inr (x, bad) ↦ rw (insert_trip, bad) (Grows-refl Continues Continues-refl db.trips)
      | inl good ↦ rw (insert_trip, good) (Grows-append Continues Continues-refl db.trips _)
    ]

Evolution-Kept : Kept Evolves
unfolding update_details transition append_trip_event
Evolution-Kept = record {
  preorder = record {
    same = λ a. Grows-refl Continues Continues-refl a.trips;
    chain = λ a b c. Grows-trans Continues Continues-trans a.trips b.trips c.trips;
  };
  inserts = λ now c i. record { kept = insert_trip-Evolves now c i };
  updates = λ now c t v i closes. record {
    kept = λ db. change_trip-Evolves _ _ _ db (edited-Continues now c t v i closes);
  };
  moves = λ now c t a. record {
    kept = λ db. change_trip-Evolves false _ _ db (moved-Continues now c t a);
  };
  appends = λ c t e a. record { kept = λ db. Grows-refl Continues Continues-refl db.trips };
}

trip_history-Evolves : (cs : List Call) (db : Db) → Evolves db (trip_history cs db)
unfolding trip_history
trip_history-Evolves [] db = Grows-refl Continues Continues-refl db.trips
trip_history-Evolves (c ∷ cs) db =
    Evolution-Kept.preorder.chain db (serve c db).1 (trip_history cs (serve c db).1)
      ((serve-kept Evolution-Kept c).kept db) (trip_history-Evolves cs (serve c db).1)

-- Whatever calls follow, a trip keeps its price, its route and its bus; and a trip that is COMPLETED
-- or CANCELLED stays as it is in every field.
pub trip_history_final :
    (cs : List Call) (db : Db) (k : ℕ) {t : TripRow}
    → find (λ r. r.id == k) db.trips ≡ some t
    → (u : TripRow) × (find (λ r. r.id == k) (trip_history cs db).trips ≡ some u)
      × (u.price_mru ≡ t.price_mru)
      × (u.route_id ≡ t.route_id)
      × (u.bus_id ≡ t.bus_id)
      × ((is_final t.status ≡ false) ⊎ (u ≡ t))
trip_history_final cs db k h =
    let (u, f, c) =
      find-Grows Continues (λ r. r.id == k) (λ x y c. rw c.id refl) db.trips _
        (trip_history-Evolves cs db) h in
    (u, f, c.price_mru, c.route_id, c.bus_id, c.over)
