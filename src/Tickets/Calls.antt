-- ===== src/Tickets/Calls.antt =====
-- Every mutating call of TicketsService at once: what each statement keeps, each call keeps.
use voyagi.Prelude.{ℕ, ◌+◌, Bool, List, [], ◌∷◌, Option}
use voyagi.Identity.Identifier.{Text}
use voyagi.Identity.Roles.{Permission}
use voyagi.Store.Enums.{BookingStatus, BookingEventType}
use voyagi.Store.Rows.{Db, BookingRow, AuditAction}
use voyagi.Store.Monad.{M, pure, ◌>>◌}
use voyagi.Store.Keeps.{Keeps, Keeps-pure, Keeps->>=, IsPreorder, keeping}
use voyagi.Audit.{append_audit}
use voyagi.Payments.Repository.{append_booking_event}
use voyagi.Tickets.Types.{InsertTicketParams, IssuablePassenger, LockedTicket}
use voyagi.Tickets.Repository.{insert_ticket, check_in_ticket, revoke_ticket_row, check_in_seat}
use voyagi.Tickets.Service.{
  TicketsService, RawToken, insert_all, list_issued, issue, issue_within, issue_for_owner,
  ticket_scope, issue_for_company, validate_locked, validate_within, validate_ticket, revoke_within,
  revoke_ticket,
}

-- A call of the service that may change the database, by its entry point.
pub data Call : Type 0 where
  owner_issue : Text → Text → Call
  company_issue validation revocation : Text → Text → Text → Call

unfoldable pub serve : TicketsService → Call → M (Unit {0})
serve s (owner_issue actor booking) = issue_for_owner s actor booking >> pure tt
serve s (company_issue actor company booking) = issue_for_company s actor company booking >> pure tt
serve s (validation actor company ticket) = validate_ticket s actor company ticket >> pure tt
serve s (revocation actor company ticket) = revoke_ticket s actor company ticket >> pure tt

-- What the statements keep.
pub record Kept (R : Db → Db → Type 0) : Type 0 where
  pub preorder : IsPreorder R
  pub inserts : (now : ℕ) (params : InsertTicketParams) → Keeps R (insert_ticket now params)
  pub checks_in : (now ticket : ℕ) → Keeps R (check_in_ticket now ticket)
  pub revokes : (now ticket : ℕ) → Keeps R (revoke_ticket_row now ticket)
  pub seats : (now seat : ℕ) → Keeps R (check_in_seat now seat)
  pub appends :
      (b c : ℕ) (a : Option ℕ) (t : BookingEventType) → Keeps R (append_booking_event b c a t)
  pub audits :
      (bound : Bool) (a : Option ℕ) (c : ℕ) (t : AuditAction) (e : ℕ)
      → Keeps R (append_audit bound a c t e)

module _ {R : Db → Db → Type 0} (k : Kept R) (s : TicketsService) where
  open k use {preorder, inserts, checks_in, revokes, seats, appends, audits}

  pub insert_all-kept : (b n : ℕ) (ps : List IssuablePassenger) → Keeps R (insert_all s b n ps)
  unfolding insert_all
  insert_all-kept b n [] = Keeps-pure preorder []
  insert_all-kept b n (p ∷ ps) =
      Keeps->>= preorder _ _ (inserts s.now _)
        λ o. Keeps->>= preorder _ _ (insert_all-kept b (n + 1) ps) λ tokens. Keeps-pure preorder _

  list_issued-kept :
      (b : ℕ) (reach : BookingRow → Bool) (ts : List RawToken) → Keeps R (list_issued s b reach ts)
  unfolding list_issued
  list_issued-kept b reach ts = search (keeping, preorder) depth 12

  issue-kept :
      (b : ℕ) (t : BookingStatus) (p : Bool) (reach : BookingRow → Bool)
      → Keeps R (issue s b t p reach)
  unfolding issue
  issue-kept b t p reach = search (keeping, preorder, insert_all-kept, list_issued-kept) depth 20

  issue_within-kept : (reach : BookingRow → Bool) (b : ℕ) → Keeps R (issue_within s reach b)
  unfolding issue_within
  issue_within-kept reach b = search (keeping, preorder, issue-kept) depth 12

  scope-kept : (a c : Text) (p : Permission) → Keeps R (ticket_scope s a c p)
  unfolding ticket_scope
  scope-kept a c p = search (keeping, preorder) depth 12

  locked-kept : (a t : ℕ) (l : LockedTicket) → Keeps R (validate_locked s a t l)
  unfolding validate_locked
  locked-kept a t l = search (keeping, preorder, checks_in, seats, appends, audits) depth 30

  validate-kept :
      (a : ℕ) (reach : BookingRow → Bool) (t : ℕ) → Keeps R (validate_within s a reach t)
  unfolding validate_within
  validate-kept a reach t = search (keeping, preorder, locked-kept) depth 12

  revoke-kept : (reach : BookingRow → Bool) (t : ℕ) → Keeps R (revoke_within s reach t)
  unfolding revoke_within
  revoke-kept reach t = search (keeping, preorder, revokes) depth 20

  -- Every call keeps what every statement keeps.
  pub serve-kept : (c : Call) → Keeps R (serve s c)
  unfolding serve issue_for_owner issue_for_company validate_ticket revoke_ticket
  serve-kept (owner_issue a b) = search (keeping, preorder, issue_within-kept) depth 20
  serve-kept (company_issue a c b) =
      search (keeping, preorder, scope-kept, issue_within-kept) depth 20
  serve-kept (validation a c t) = search (keeping, preorder, scope-kept, validate-kept) depth 20
  serve-kept (revocation a c t) = search (keeping, preorder, scope-kept, revoke-kept) depth 20
