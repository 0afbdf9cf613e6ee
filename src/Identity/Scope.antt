-- ===== src/Identity/Scope.antt =====
-- The private `accessScope` of BookingsService, PaymentsService and TicketsService (the same loop
-- in each), the SQL test of a scope, and modules/branches/branch-access.policy.ts.
use voyagi.Prelude.{
  ℕ, Bool, true, false, ◌||◌, List, [], ◌∷◌, Option, none, some, includes, add_all, select, any,
  if◌then◌else◌,
}
use voyagi.Identity.Roles.{Permission, branches_read, has}
use voyagi.Identity.Access.{
  BranchAccess, company_wide, restricted, nothing, Entitlement, can_exercise_permission_in_branch,
}

pub record AccessScope : Type 0 where
  pub company_wide_scope : Bool
  pub branch_ids : List ℕ

abbrev pub widen : BranchAccess → AccessScope → AccessScope
widen company_wide s = record s { company_wide_scope = true }
widen (restricted bs) s = record s { branch_ids = add_all bs s.branch_ids }
widen nothing s = s

abbrev pub scope_loop : List Entitlement → Permission → AccessScope → AccessScope
scope_loop [] p s = s
scope_loop (e ∷ es) p s =
    scope_loop es p (if has e.permissions p then widen e.branch_access s else s)

unfoldable pub access_scope : List Entitlement → Permission → AccessScope
access_scope es p = scope_loop es p (record { company_wide_scope = false; branch_ids = [] })

-- `$3::boolean OR branch_id = ANY($4::bigint[])`, where a null branch equals no id.
unfoldable pub in_scope : AccessScope → Option ℕ → Bool
in_scope s none = s.company_wide_scope
in_scope s (some b) = s.company_wide_scope || includes s.branch_ids b

pub data BranchReadScope : Type 0 where
  all_branches : BranchReadScope
  some_branches : List ℕ → BranchReadScope
  no_branches : BranchReadScope

unfoldable pub is_wide : BranchAccess → Bool
is_wide company_wide = true
is_wide (restricted bs) = false
is_wide nothing = false

-- `if (branchAccess.kind === 'restricted') …` of the loop over the readers.
unfoldable pub collect : BranchAccess → List ℕ → List ℕ
collect company_wide set = set
collect (restricted bs) set = add_all bs set
collect nothing set = set

abbrev pub reader_branches : List Entitlement → List ℕ → List ℕ
reader_branches [] set = set
reader_branches (e ∷ es) set = reader_branches es (collect e.branch_access set)

abbrev pub read_scope : List ℕ → BranchReadScope
read_scope [] = no_branches
read_scope (b ∷ bs) = some_branches (b ∷ bs)

unfoldable pub readable_branch_scope : List Entitlement → BranchReadScope
readable_branch_scope es =
    let readers = select (λ e. has e.permissions branches_read) es in
    if any (λ e. is_wide e.branch_access) readers
    then all_branches
    else read_scope (reader_branches readers [])

unfoldable pub can_read_branch : List Entitlement → ℕ → Bool
can_read_branch es b = can_exercise_permission_in_branch es branches_read b

-- Whether a read scope, as the branch queries use it, shows a branch.
abbrev pub shows : BranchReadScope → ℕ → Bool
shows all_branches b = true
shows (some_branches bs) b = includes bs b
shows no_branches b = false
