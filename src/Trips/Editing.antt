-- ===== src/Trips/Editing.antt =====
-- Of two edits that expect one version, the second is refused.
use voyagi.Prelude.{
  ℕ, ◌+◌, Bool, true, false, Option, none, some, ◌≡◌, refl, ◌∙◌, arith, find-&&, find-update,
  found_here, ◌||◌, ◌&&◌, ◌==◌, not, Bool-cases, Option-cases, inl, inr, ◌⊎◌, ltb,
}
use voyagi.Store.Network.{TripRow, StaffType, is_trip, scheduled}
use voyagi.Store.Rows.{Db}
use voyagi.Store.Monad.{
  Result, ok, err, ◌>>=◌, notation, trip_version_conflict, trip_association_invalid,
}
use voyagi.Trips.Repository.{
  find_in_company, change_trip, write_violation, is_editable, update_details, updated_trip, is_keep,
  lock_bus_assignment, has_active_maintenance_overlap, value_or, is_busy, find_staff_assignment,
  TripUpdate, Change, keep, clear, set, is_driver, is_assistant,
}
use voyagi.Trips.Service.{
  update_within, assert_staff, assert_changed_staff, or_missed, bus_unavailable, closes_if_moved,
  compute_boarding_closes_at,
}

abbrev is_set : Change → Bool
is_set keep = false
is_set clear = false
is_set (set n) = true

-- An edit that assigns a driver or an assistant.
abbrev pub names_staff : TripUpdate → Bool
names_staff i = is_set i.driver_id || is_set i.assistant_id

-- The two ways of a check of the staff, which writes nothing.
staff_run :
    (company : ℕ) (o : Change) (type : StaffType → Bool) (db : Db)
    → (assert_changed_staff company o type db ≡ (ok tt, db))
      ⊎ ((assert_changed_staff company o type db ≡ (err trip_association_invalid, db))
          × (is_set o ≡ true))
unfolding assert_changed_staff assert_staff notation
staff_run company keep type db = inl refl
staff_run company clear type db = inl refl
staff_run company (set m) type db = elim (Option-cases (find_staff_assignment company m db)) [
  | inl f ↦ inr (rw (assert_changed_staff, f) refl, refl)
  | inr (x, f) ↦ elim (Bool-cases x.is_active) [
    | inr a ↦ inr (rw (assert_changed_staff, f, a) refl, refl)
    | inl a ↦ elim (Bool-cases (type x.staff_type)) [
      | inr t ↦ inr (rw (assert_changed_staff, f, a, t) refl, refl)
      | inl t ↦ inl (rw (assert_changed_staff, f, a, t) refl)
    ]
  ]
]

-- What an edit that is not carried out leaves and throws.
abbrev pub IsRefused : TripUpdate → Db → Result TripRow × Db → Type 0
IsRefused i db r =
    (r.1 ≡ db)
    × ((r.0 ≡ err trip_version_conflict)
        ⊎ ((r.0 ≡ err trip_association_invalid) × (names_staff i ≡ true)))

-- An edit that expects another version.
update_stale :
    (now company trip version : ℕ) (i : TripUpdate) (db : Db) {t : TripRow}
    → find_in_company company trip db ≡ some t
    → is_trip t.status scheduled ≡ true
    → (t.version == version) ≡ false
    → IsRefused i db (update_within now company trip version i db)
unfolding update_within notation
update_stale now company trip version i db f s v =
    elim (staff_run company i.driver_id is_driver db) [
      | inr (d, n) ↦ rw (update_within, d) (refl, inr (refl, rw n refl))
      | inl d ↦ elim (staff_run company i.assistant_id is_assistant db) [
        | inr (a, n) ↦ rw (update_within, d, a) (refl, inr (refl, ground (arith, n)))
        | inl a ↦ rw (update_within, d, a, f, s, v) (refl, inl refl)
      ]
    ]

-- What an edit that returns has done.
record Edited (company trip version : ℕ) (db d : Db) : Type 0 where
  old : TripRow
  new : TripRow
  found : find_in_company company trip d ≡ some new
  scheduled_ : is_trip new.status scheduled ≡ true
  version_ : new.version ≡ version + 1

missed_none :
    (company trip : ℕ) (db : Db) {r : TripRow} → (or_missed company trip none db).0 ≡ ok r → ⊥
unfolding or_missed notation
missed_none company trip db h = elim (Option-cases (find_in_company company trip db)) [
  | inl e ↦ absurd (ground (arith, rw (or_missed, e) at h))
  | inr (t, e) ↦ elim (Bool-cases (is_trip t.status scheduled)) [
    | inl s ↦ absurd (ground (arith, rw (or_missed, e, s) at h))
    | inr s ↦ absurd (ground (arith, rw (or_missed, e, s) at h))
  ]
]

details_done :
    (now company trip version : ℕ) (i : TripUpdate) (closes : Option ℕ) (db : Db) {t r : TripRow}
    → find_in_company company trip db ≡ some t
    → is_trip t.status scheduled ≡ true
    → (t.version == version) ≡ true
    → ((update_details now company trip version i closes >>= λ u. or_missed company trip u) db).0
      ≡ ok r
    → Edited company trip version db
        ((update_details now company trip version i closes >>= λ u. or_missed company trip u) db).1
unfolding update_details change_trip find_in_company or_missed notation
details_done now company trip version i closes db {t} f s v h =
    let editable = is_editable company trip version in
    let chosen =
      find-&& (λ t. t.id == trip && t.company_id == company)
        (λ t. is_trip t.status scheduled && t.version == version) db.trips f (rw (s, v) refl) in
    let flag = not (is_keep i.driver_id) || not (is_keep i.assistant_id) in
    let new = updated_trip now i closes t in
    elim (Option-cases (write_violation flag db new)) [
      | inr (e, bad) ↦ absurd (ground (arith, rw (update_details, change_trip, chosen, bad) at h))
      | inl good ↦
          rw (update_details, change_trip, chosen, good)
            (record {
              old = t;
              new = new;
              found =
                  find-update (λ x. x.id == trip && x.company_id == company) editable
                    (updated_trip now i closes) (λ x. refl) db.trips
                  ∙ rw (f, found_here editable db.trips chosen) refl;
              scheduled_ = s;
              version_ = ground (arith, v);
            })
    ]

closes_run :
    (company : ℕ) (o : Option ℕ) (db : Db)
    → (closes : Option ℕ) × (closes_if_moved company o db ≡ (ok closes, db))
unfolding closes_if_moved compute_boarding_closes_at notation
closes_run company none db = (none, refl)
closes_run company (some d) db = (_, refl)

module _ (now company trip version : ℕ) (i : TripUpdate) (db : Db) where
  checks_done :
      (t : TripRow) {r : TripRow}
      → assert_changed_staff company i.driver_id is_driver db ≡ (ok tt, db)
      → assert_changed_staff company i.assistant_id is_assistant db ≡ (ok tt, db)
      → find_in_company company trip db ≡ some t
      → is_trip t.status scheduled ≡ true
      → (t.version == version) ≡ true
      → (update_within now company trip version i db).0 ≡ ok r
      → Edited company trip version db (update_within now company trip version i db).1
  unfolding update_within has_active_maintenance_overlap notation
  checks_done t d a f s v h =
      let from = value_or i.departure_time t.departure_time in
      let to = value_or i.estimated_arrival_time t.estimated_arrival_time in
      elim (Bool-cases (bus_unavailable (lock_bus_assignment company t.bus_id db))) [
        | inl b ↦ absurd (ground (arith, rw (update_within, d, a, f, s, v, b) at h))
        | inr b ↦ elim (Bool-cases (ltb to from)) [
          | inl g ↦ absurd (ground (arith, rw (update_within, d, a, f, s, v, b, g) at h))
          | inr g ↦ elim (Bool-cases (is_busy company t.bus_id from to db)) [
            | inl m ↦ absurd (ground (arith, rw (update_within, d, a, f, s, v, b, g, m) at h))
            | inr m ↦
                let (closes, c) = closes_run company i.departure_time db in
                rw (update_within, d, a, f, s, v, b, g, m, c)
                  (details_done now company trip version i closes db f s v
                    (rw (update_within, d, a, f, s, v, b, g, m, c) at h))
          ]
        ]
      ]

  found_done :
      {r : TripRow}
      → assert_changed_staff company i.driver_id is_driver db ≡ (ok tt, db)
      → assert_changed_staff company i.assistant_id is_assistant db ≡ (ok tt, db)
      → (update_within now company trip version i db).0 ≡ ok r
      → Edited company trip version db (update_within now company trip version i db).1
  unfolding update_within notation
  found_done d a h = elim (Option-cases (find_in_company company trip db)) [
    | inl f ↦ absurd (ground (arith, rw (update_within, d, a, f) at h))
    | inr (t, f) ↦ elim (Bool-cases (is_trip t.status scheduled)) [
      | inr s ↦ absurd (ground (arith, rw (update_within, d, a, f, s) at h))
      | inl s ↦ elim (Bool-cases (t.version == version)) [
        | inr v ↦ absurd (ground (arith, rw (update_within, d, a, f, s, v) at h))
        | inl v ↦ checks_done t d a f s v h
      ]
    ]
  ]

  within_done :
      {r : TripRow}
      → (update_within now company trip version i db).0 ≡ ok r
      → Edited company trip version db (update_within now company trip version i db).1
  unfolding update_within notation
  within_done h = elim (staff_run company i.driver_id is_driver db) [
    | inr (d, n) ↦ absurd (ground (arith, rw (update_within, d) at h))
    | inl d ↦ elim (staff_run company i.assistant_id is_assistant db) [
      | inr (a, n) ↦ absurd (ground (arith, rw (update_within, d, a) at h))
      | inl a ↦ found_done d a h
    ]
  ]

-- Where an edit has returned, every second edit that expects the same version is refused and leaves
-- what the first one wrote: it throws a version conflict, or, where it assigns a driver or an
-- assistant, an invalid association instead, since the staff is checked before the version.
pub update_once :
    (now later company trip version : ℕ) (i j : TripUpdate) (db : Db) {r : TripRow}
    → (update_within now company trip version i db).0 ≡ ok r
    → let d = (update_within now company trip version i db).1 in
      IsRefused j d (update_within later company trip version j d)
update_once now later company trip version i j db h =
    let x = within_done now company trip version i db h in
    update_stale later company trip version j (update_within now company trip version i db).1
      x.found x.scheduled_ (rw x.version_ (ground arith))
