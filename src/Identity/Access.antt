-- ===== src/Identity/Access.antt =====
-- modules/identity/branch-access.ts and modules/identity/entitlements.ts.
use voyagi.Prelude.{
  ℕ, Bool, true, false, ◌&&◌, List, [], ◌∷◌, map, Option, none, some, includes, add, add_all, any,
  if◌then◌else◌,
}
use voyagi.Identity.Roles.{
  Permission, value, has, all_permissions, MembershipRole, super_admin, company_manager,
  branch_employee, agent, passenger, permissions_for_roles, filter_granted,
}

pub record Membership : Type 0 where
  pub id : ℕ
  pub user_id : ℕ
  pub company_id : ℕ
  pub branch_id : Option ℕ
  pub role : MembershipRole
  pub is_active : Bool
  pub created_at : ℕ
  pub updated_at : ℕ

pub data BranchAccess : Type 0 where
  company_wide : BranchAccess
  restricted : List ℕ → BranchAccess
  nothing : BranchAccess

-- `COMPANY_WIDE_ROLES.includes(role)`
abbrev pub is_company_wide : MembershipRole → Bool
is_company_wide super_admin = true
is_company_wide company_manager = true
is_company_wide branch_employee = false
is_company_wide agent = false
is_company_wide passenger = false

-- `BRANCH_SCOPED_ROLES.includes(role)`
abbrev pub is_branch_scoped : MembershipRole → Bool
is_branch_scoped super_admin = false
is_branch_scoped company_manager = false
is_branch_scoped branch_employee = true
is_branch_scoped agent = true
is_branch_scoped passenger = false

abbrev pub add_branch : Option ℕ → List ℕ → List ℕ
add_branch none set = set
add_branch (some b) set = add b set

abbrev pub branch_ids : List Membership → List ℕ → List ℕ
branch_ids [] set = set
branch_ids (m ∷ ms) set =
    branch_ids ms (if is_branch_scoped m.role then add_branch m.branch_id set else set)

abbrev pub restrict : List ℕ → BranchAccess
restrict [] = nothing
restrict (b ∷ bs) = restricted (b ∷ bs)

unfoldable pub resolve_branch_access : List Membership → BranchAccess
resolve_branch_access ms =
    if any (λ m. is_company_wide m.role) ms then company_wide else restrict (branch_ids ms [])

pub record Entitlement : Type 0 where
  pub membership : Membership
  pub permissions : List Permission
  pub branch_access : BranchAccess

unfoldable pub resolve_entitlements : List Membership → List Entitlement
resolve_entitlements [] = []
resolve_entitlements (m ∷ ms) =
    record {
      membership = m;
      permissions = permissions_for_roles (m.role ∷ []);
      branch_access = resolve_branch_access (m ∷ []);
    }
    ∷ resolve_entitlements ms

unfoldable pub scope_reaches_branch : BranchAccess → ℕ → Bool
scope_reaches_branch company_wide b = true
scope_reaches_branch (restricted bs) b = includes bs b
scope_reaches_branch nothing b = false

abbrev pub grant_reaching : ℕ → List Entitlement → List ℕ → List ℕ
grant_reaching b [] granted = granted
grant_reaching b (e ∷ es) granted = grant_reaching b es (
    if scope_reaches_branch e.branch_access b
    then add_all (map value e.permissions) granted
    else granted)

unfoldable pub effective_permissions_for_branch : List Entitlement → ℕ → List Permission
effective_permissions_for_branch es b = filter_granted (grant_reaching b es []) all_permissions

unfoldable pub can_exercise_permission_in_branch : List Entitlement → Permission → ℕ → Bool
can_exercise_permission_in_branch es p b =
    any (λ e. scope_reaches_branch e.branch_access b && has e.permissions p) es
