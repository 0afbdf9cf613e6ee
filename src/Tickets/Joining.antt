-- ===== src/Tickets/Joining.antt =====
-- The rows of `TICKET_JOINS`: what a join finds, and what it finds after an update.
use voyagi.Prelude.{
  ℕ, Bool, true, List, [], ◌∷◌, some, ◌≡◌, refl, sym, ap, arith, find, update, ◌==◌, ==_refl, map,
  map_option, any-found, Bool-cases, Option-cases, inl, inr, subst, found_here, Every, Every-mono,
  if◌then◌else◌,
}
use voyagi.Store.Rows.{Db, TicketRow}
use voyagi.Payments.Repository.{find_booking}
use voyagi.Tickets.Repository.{JoinedTicket, join_ticket, join_where, first_row}
use voyagi.Tickets.Unique.{AllDistinct, clash}

-- The rows of a join are those found under the keys of the ticket.
pub record Joins (db : Db) (t : TicketRow) (j : JoinedTicket) : Type 0 where
  pub row : j.row ≡ t
  pub booking : find_booking t.booking_id db ≡ some j.booking

pub join_ticket-Joins :
    (db : Db) (t : TicketRow) {j : JoinedTicket} → join_ticket db t ≡ some j → Joins db t j
unfolding join_ticket
join_ticket-Joins db t h = record { row = ground arith; booking = ground arith }

pub record Found (w : JoinedTicket → Bool) (db : Db) (ts : List TicketRow) (j : JoinedTicket)
    : Type 0 where
  pub joined : join_ticket db j.row ≡ some j
  pub clause : w j ≡ true
  pub found : find (λ t. t.id == j.row.id) ts ≡ some j.row

-- The first ticket that joins under the clause.
head_joins :
    (w : JoinedTicket → Bool) (db : Db) (t : TicketRow) (ts : List TicketRow) (i : JoinedTicket)
    {j : JoinedTicket}
    → join_ticket db t ≡ some i
    → w i ≡ true
    → i ≡ j
    → Found w db (t ∷ ts) j
head_joins w db t ts i e y same =
    let row = (join_ticket-Joins db t e).row in
    subst (λ x. Found w db (t ∷ ts) x) same
      (record {
        joined = subst (λ r. join_ticket db r ≡ some i) (sym row) e;
        clause = y;
        found = rw (row, ==_refl t.id) refl;
      })

-- A ticket that is found behind another has another id.
find_later :
    (t : TicketRow) (ts : List TicketRow) (k : ℕ) {u : TicketRow}
    → AllDistinct (t ∷ ts)
    → find (λ r. r.id == k) ts ≡ some u
    → find (λ r. r.id == k) (t ∷ ts) ≡ some u
find_later t ts k {u} d f =
    let c = any-found (λ r. r.id == k) (clash t) ts d.0 f in
    let here = found_here (λ r. r.id == k) ts f in ground (arith, c, here, f)

behind_joins :
    (w : JoinedTicket → Bool) (db : Db) (t : TicketRow) (ts : List TicketRow) {j : JoinedTicket}
    → AllDistinct (t ∷ ts)
    → Found w db ts j
    → Found w db (t ∷ ts) j
behind_joins w db t ts {j} d r = record {
  joined = r.joined;
  clause = r.clause;
  found = find_later t ts j.row.id d r.found;
}

pub first_row-Found :
    (w : JoinedTicket → Bool) (db : Db) (ts : List TicketRow) {j : JoinedTicket}
    → AllDistinct ts
    → first_row (join_where w db ts) ≡ some j
    → Found w db ts j
unfolding join_where
first_row-Found w db [] d h = absurd cc
first_row-Found w db (t ∷ ts) {j} d h = elim (Option-cases (join_ticket db t)) [
  | inl e ↦ behind_joins w db t ts d (first_row-Found w db ts d.1 (rw e at h))
  | inr (i, e) ↦ elim (Bool-cases (w i)) [
    | inr n ↦ behind_joins w db t ts d (first_row-Found w db ts d.1 (rw (e, n) at h))
    | inl y ↦ head_joins w db t ts i e y (ground (arith, rw (e, y) at h))
  ]
]

-- A join after an update of the tickets and of the seats, which leaves the keys.
pub join_where-update :
    (w : JoinedTicket → Bool) (db after : Db) (p : TicketRow → Bool)
    (change : TicketRow → TicketRow) (f : JoinedTicket → JoinedTicket)
    → ((t : TicketRow)
        → join_ticket after (if p t then change t else t) ≡ map_option f (join_ticket db t))
    → ((j : JoinedTicket) → w (f j) ≡ w j)
    → (ts : List TicketRow) → join_where w after (update p change ts) ≡ map f (join_where w db ts)
unfolding join_where
join_where-update w db after p change f h k [] = refl
join_where-update w db after p change f h k (t ∷ ts) = elim (Option-cases (join_ticket db t)) [
  | inl e ↦ rw (h t, e) (join_where-update w db after p change f h k ts)
  | inr (j, e) ↦
      rw (h t, e, k j)
        (elim (Bool-cases (w j)) [
          | inl y ↦ rw y (ap (λ js. f j ∷ js) (join_where-update w db after p change f h k ts))
          | inr n ↦ rw n (join_where-update w db after p change f h k ts)
        ])
]

pub first_row-map :
    (f : JoinedTicket → JoinedTicket) (js : List JoinedTicket)
    → first_row (map f js) ≡ map_option f (first_row js)
first_row-map f [] = refl
first_row-map f (j ∷ js) = refl

-- The ticket that a clause on tickets finds, and that joins, is the first of the join under a clause
-- that is narrower and holds of it.
pub first_row-of :
    (w : JoinedTicket → Bool) (p : TicketRow → Bool) (db : Db)
    → ((i : JoinedTicket) → w i ≡ true → p i.row ≡ true)
    → (ts : List TicketRow) {t : TicketRow} {j : JoinedTicket} → find p ts ≡ some t
    → join_ticket db t ≡ some j
    → w j ≡ true
    → first_row (join_where w db ts) ≡ some j
unfolding join_where
first_row-of w p db n [] f e y = absurd cc
first_row-of w p db n (u ∷ ts) {t} {j} f e y = elim (Bool-cases (p u)) [
  | inl here ↦
      let head : t ≡ u = ground (arith, here, f) in
      let same = subst (λ x. join_ticket db x ≡ some j) head e in rw (same, y) refl
  | inr other ↦
      let rest = first_row-of w p db n ts (rw other at f) e y in
      elim (Option-cases (join_ticket db u)) [
        | inl a ↦ rw a rest
        | inr (i, a) ↦ elim (Bool-cases (w i)) [
          | inr b ↦ rw (a, b) rest
          | inl b ↦ absurd (
              ground (arith, subst (λ r. p r ≡ true) (join_ticket-Joins db u a).row (n i b), other))
        ]
      ]
]

pub first_row-by_id :
    (db : Db) (k : ℕ) (ts : List TicketRow) {t : TicketRow} {j : JoinedTicket}
    → find (λ r. r.id == k) ts ≡ some t
    → join_ticket db t ≡ some j
    → first_row (join_where (λ i. i.row.id == k) db ts) ≡ some j
first_row-by_id db k ts {t} f e =
    first_row-of (λ i. i.row.id == k) (λ r. r.id == k) db (λ i h. h) ts f e
      (rw (join_ticket-Joins db t e).row (found_here (λ r. r.id == k) ts f))

-- Every row of a join is found under its id.
pub join_where-Found :
    (w : JoinedTicket → Bool) (db : Db) (ts : List TicketRow)
    → AllDistinct ts
    → Every (Found w db ts) (join_where w db ts)
unfolding join_where
join_where-Found w db [] d = tt
join_where-Found w db (t ∷ ts) d =
    let later =
      Every-mono (Found w db ts) (Found w db (t ∷ ts)) (λ j. behind_joins w db t ts d)
        (join_where w db ts) (join_where-Found w db ts d.1) in
    elim (Option-cases (join_ticket db t)) [
      | inl e ↦ rw e later
      | inr (i, e) ↦ elim (Bool-cases (w i)) [
        | inr n ↦ rw (e, n) later
        | inl y ↦ rw (e, y) (head_joins w db t ts i e y refl, later)
      ]
    ]

-- A ticket that some clause finds is found under its id.
pub find-id :
    (p : TicketRow → Bool) (ts : List TicketRow) {t : TicketRow}
    → AllDistinct ts
    → find p ts ≡ some t
    → find (λ r. r.id == t.id) ts ≡ some t
find-id p [] d h = absurd cc
find-id p (u ∷ ts) {t} d h = elim (Bool-cases (p u)) [
  | inl e ↦ let same : u ≡ t = ground (arith, e, h) in rw (same, ==_refl t.id) refl
  | inr e ↦ find_later u ts t.id d (find-id p ts d.1 (rw e at h))
]
