-- ===== src/Trips/Calls.antt =====
-- Every mutating call of TripsService at once: what each statement keeps, each call keeps.
use voyagi.Prelude.{Bool-cases, inl, inr, ltb, ℕ, Bool, List, [], ◌∷◌, Option, none, some}
use voyagi.Identity.Identifier.{Text}
use voyagi.Store.Network.{TripRow, TripEventType, StaffType}
use voyagi.Store.Rows.{Db}
use voyagi.Store.Monad.{M, pure, ◌>>◌}
use voyagi.Store.Keeps.{Keeps, Keeps-pure, IsPreorder, keeping}
use voyagi.Trips.Transitions.{TripAction, trip_transitions}
use voyagi.Trips.Repository.{
  TripInsert, insert_trip, TripUpdate, Change, keep, clear, set, update_details, transition,
  append_trip_event, has_active_maintenance_overlap,
}
use voyagi.Trips.Service.{
  TripCreate, optional_id, assert_staff, assert_optional_staff, assert_changed_staff,
  compute_boarding_closes_at, closes_if_moved, create_within, create_trip, or_missed, update_within,
  update_trip, after_transition, transition_within, apply_transition,
}

-- A call of the service at a time, by its entry point.
pub data Call : Type 0 where
  creation : ℕ → Text → TripCreate → ℕ → Call
  edit : ℕ → Text → Text → ℕ → TripUpdate → Call
  action : ℕ → Text → Text → TripAction → ℕ → Call

unfoldable pub serve : Call → M (Unit {0})
serve (creation now company input actor) = create_trip now company input actor >> pure tt
serve (edit now company trip version i) = update_trip now company trip version i >> pure tt
serve (action now company trip a actor) = apply_transition now company trip a actor >> pure tt

unfoldable pub trip_history : List Call → Db → Db
trip_history [] db = db
trip_history (c ∷ cs) db = trip_history cs (serve c db).1

-- What the statements keep.
pub record Kept (R : Db → Db → Type 0) : Type 0 where
  pub preorder : IsPreorder R
  pub inserts : (now c : ℕ) (i : TripInsert) → Keeps R (insert_trip now c i)
  pub updates :
      (now c t v : ℕ) (i : TripUpdate) (closes : Option ℕ)
      → Keeps R (update_details now c t v i closes)
  pub moves : (now c t : ℕ) (a : TripAction) → Keeps R (transition now c t (trip_transitions a))
  pub appends : (c t : ℕ) (e : TripEventType) (a : ℕ) → Keeps R (append_trip_event c t e a)

module _ {R : Db → Db → Type 0} (k : Kept R) where
  open k use {preorder, inserts, updates, moves, appends}

  optional-kept : (o : Option Text) → Keeps R (optional_id o)
  unfolding optional_id
  optional-kept none = Keeps-pure preorder none
  optional-kept (some t) = search (keeping, preorder) depth 12

  staff-kept : (c m : ℕ) (type : StaffType → Bool) → Keeps R (assert_staff c m type)
  unfolding assert_staff
  staff-kept c m type = search (keeping, preorder) depth 12

  optional_staff-kept :
      (c : ℕ) (o : Option ℕ) (type : StaffType → Bool) → Keeps R (assert_optional_staff c o type)
  unfolding assert_optional_staff
  optional_staff-kept c none type = Keeps-pure preorder tt
  optional_staff-kept c (some m) type = staff-kept c m type

  changed_staff-kept :
      (c : ℕ) (o : Change) (type : StaffType → Bool) → Keeps R (assert_changed_staff c o type)
  unfolding assert_changed_staff
  changed_staff-kept c keep type = Keeps-pure preorder tt
  changed_staff-kept c clear type = Keeps-pure preorder tt
  changed_staff-kept c (set m) type = staff-kept c m type

  busy-kept : (c b from to : ℕ) → Keeps R (has_active_maintenance_overlap c b from to)
  unfolding has_active_maintenance_overlap
  busy-kept c b from to = record {
    kept = λ db. elim (Bool-cases (ltb to from)) [
      | inl e ↦ rw (has_active_maintenance_overlap, e) (preorder.same db)
      | inr e ↦ rw (has_active_maintenance_overlap, e) (preorder.same db)
    ];
  }

  closes-kept : (c d : ℕ) → Keeps R (compute_boarding_closes_at c d)
  unfolding compute_boarding_closes_at
  closes-kept c d = search (keeping, preorder) depth 12

  moved-kept : (c : ℕ) (o : Option ℕ) → Keeps R (closes_if_moved c o)
  unfolding closes_if_moved
  moved-kept c none = Keeps-pure preorder none
  moved-kept c (some d) = search (keeping, preorder, closes-kept) depth 12

  create-kept :
      (now a c r b : ℕ) (d s : Option ℕ) (from to : ℕ)
      → Keeps R (create_within now a c r b d s from to)
  unfolding create_within
  create-kept now a c r b d s from to =
      search (keeping, preorder, busy-kept, optional_staff-kept, closes-kept, inserts, appends)
        depth 40

  missed-kept : (c t : ℕ) (o : Option TripRow) → Keeps R (or_missed c t o)
  unfolding or_missed
  missed-kept c t none = search (keeping, preorder) depth 12
  missed-kept c t (some r) = Keeps-pure preorder r

  update-kept : (now c t v : ℕ) (i : TripUpdate) → Keeps R (update_within now c t v i)
  unfolding update_within
  update-kept now c t v i =
      search (keeping, preorder, busy-kept, changed_staff-kept, moved-kept, updates, missed-kept)
        depth 40

  after-kept :
      (c t : ℕ) (a : TripAction) (u : ℕ) (o : Option TripRow) → Keeps R (after_transition c t a u o)
  unfolding after_transition
  after-kept c t a u none = search (keeping, preorder) depth 12
  after-kept c t a u (some r) = search (keeping, preorder, appends) depth 12

  transition-kept : (now c t : ℕ) (a : TripAction) (u : ℕ) → Keeps R (transition_within now c t a u)
  unfolding transition_within
  transition-kept now c t a u = search (keeping, preorder, moves, after-kept) depth 12

  -- Every call keeps what every statement keeps.
  pub serve-kept : (c : Call) → Keeps R (serve c)
  unfolding serve create_trip update_trip apply_transition
  serve-kept (creation now c i a) = search (keeping, preorder, optional-kept, create-kept) depth 30
  serve-kept (edit now c t v i) = search (keeping, preorder, update-kept) depth 20
  serve-kept (action now c t a u) = search (keeping, preorder, transition-kept) depth 20
