-- ===== src/Identity/Coupling.antt =====
-- A permission counts only in the branches that the membership which grants it reaches.
use voyagi.Prelude.{
  ℕ, ◌≡◌, refl, Bool, true, false, ◌&&◌, ◌||◌, List, [], ◌∷◌, includes, add_all, any, select, arith,
  Option, none, some, includes-add_all, map, is_some_of,
}
use voyagi.Identity.Roles.{
  Permission, value, has, all_permissions, has-all_permissions, has-filter_granted, branches_read,
  MembershipRole, has-permissions_for_roles, role_permissions,
}
use voyagi.Identity.Access.{
  Entitlement, BranchAccess, company_wide, restricted, nothing, scope_reaches_branch,
  grant_reaching, effective_permissions_for_branch, can_exercise_permission_in_branch, Membership,
  resolve_entitlements, resolve_branch_access, is_company_wide, is_branch_scoped,
}
use voyagi.Identity.Scope.{
  AccessScope, widen, scope_loop, access_scope, in_scope, readable_branch_scope, can_read_branch,
  shows, collect, reader_branches, read_scope, is_wide,
}

includes-grant_reaching :
    (b : ℕ) (es : List Entitlement) (granted : List ℕ) (p : Permission)
    → includes (grant_reaching b es granted) (value p)
      ≡ (includes granted (value p) || can_exercise_permission_in_branch es p b)
unfolding can_exercise_permission_in_branch
includes-grant_reaching b [] granted p = ground arith
includes-grant_reaching b (e ∷ es) granted p = ground (
  arith,
  includes-grant_reaching b es granted p,
  includes-grant_reaching b es (add_all (map value e.permissions) granted) p,
  includes-add_all (map value e.permissions) granted (value p),
)

-- A permission is among the effective permissions of a branch exactly if it may be exercised there.
pub effective-iff-can_exercise :
    (es : List Entitlement) (p : Permission) (b : ℕ)
    → has (effective_permissions_for_branch es b) p ≡ can_exercise_permission_in_branch es p b
unfolding effective_permissions_for_branch
effective-iff-can_exercise es p b = ground (
  arith,
  has-filter_granted (grant_reaching b es []) all_permissions p,
  has-all_permissions p,
  includes-grant_reaching b es [] p,
)

in_scope-widen :
    (a : BranchAccess) (s : AccessScope) (b : ℕ)
    → in_scope (widen a s) (some b) ≡ (in_scope s (some b) || scope_reaches_branch a b)
unfolding in_scope scope_reaches_branch
in_scope-widen company_wide s b = ground arith
in_scope-widen (restricted bs) s b = ground (arith, includes-add_all bs s.branch_ids b)
in_scope-widen nothing s b = ground arith

in_scope-scope_loop :
    (es : List Entitlement) (p : Permission) (s : AccessScope) (b : ℕ)
    → in_scope (scope_loop es p s) (some b)
      ≡ (in_scope s (some b) || can_exercise_permission_in_branch es p b)
unfolding can_exercise_permission_in_branch
in_scope-scope_loop [] p s b = ground arith
in_scope-scope_loop (e ∷ es) p s b = ground (
  arith,
  in_scope-scope_loop es p s b,
  in_scope-scope_loop es p (widen e.branch_access s) b,
  in_scope-widen e.branch_access s b,
)

-- The scope that the services hand to a query admits a branch exactly if one membership grants
-- the permission and reaches the branch.
pub in_scope-access_scope :
    (es : List Entitlement) (p : Permission) (b : ℕ)
    → in_scope (access_scope es p) (some b) ≡ can_exercise_permission_in_branch es p b
unfolding access_scope in_scope
in_scope-access_scope es p b =
    in_scope-scope_loop es p (record { company_wide_scope = false; branch_ids = [] }) b

shows-read_scope : (bs : List ℕ) (b : ℕ) → shows (read_scope bs) b ≡ includes bs b
shows-read_scope [] b = refl
shows-read_scope (c ∷ bs) b = refl

includes-collect :
    (a : BranchAccess) (set : List ℕ) (b : ℕ)
    → is_wide a ≡ false
    → includes (collect a set) b ≡ (includes set b || scope_reaches_branch a b)
unfolding scope_reaches_branch collect is_wide
includes-collect company_wide set b h = cc
includes-collect (restricted bs) set b h = includes-add_all bs set b
includes-collect nothing set b h = ground arith

-- What the loop over the readers collects, where none of them is company-wide.
reader_branches-reach :
    (es : List Entitlement) (set : List ℕ) (b : ℕ)
    → any (λ e. is_wide e.branch_access) es ≡ false
    → includes (reader_branches es set) b
      ≡ (includes set b || any (λ e. scope_reaches_branch e.branch_access b) es)
reader_branches-reach [] set b h = ground arith
reader_branches-reach (e ∷ es) set b h = ground (
  arith,
  reader_branches-reach es (collect e.branch_access set) b,
  includes-collect e.branch_access set b,
)

reaches_wide : (a : BranchAccess) (b : ℕ) → is_wide a ≡ true → scope_reaches_branch a b ≡ true
unfolding is_wide scope_reaches_branch
reaches_wide company_wide b h = refl
reaches_wide (restricted bs) b h = cc
reaches_wide nothing b h = cc

any-reaches_wide :
    (es : List Entitlement) (b : ℕ)
    → any (λ e. is_wide e.branch_access) es ≡ true
    → any (λ e. scope_reaches_branch e.branch_access b) es ≡ true
any-reaches_wide [] b h = cc
any-reaches_wide (e ∷ es) b h =
    ground (arith, any-reaches_wide es b, reaches_wide e.branch_access b)

any-select :
    (p : Permission) (es : List Entitlement) (b : ℕ)
    → any (λ e. scope_reaches_branch e.branch_access b) (select (λ e. has e.permissions p) es)
      ≡ can_exercise_permission_in_branch es p b
unfolding can_exercise_permission_in_branch
any-select p [] b = refl
any-select p (e ∷ es) b = ground (arith, any-select p es b)

-- The branches that a list query shows are those that a read of one branch admits.
pub readable_branch_scope-iff-can_read :
    (es : List Entitlement) (b : ℕ) → shows (readable_branch_scope es) b ≡ can_read_branch es b
unfolding readable_branch_scope can_read_branch
readable_branch_scope-iff-can_read es b =
    let readers = select (λ e. has e.permissions branches_read) es in
    ground (
      arith,
      any-select branches_read es b,
      any-reaches_wide readers b,
      reader_branches-reach readers [] b,
      shows-read_scope (reader_branches readers []) b,
    )

-- The branches of a membership, by its role and its branch alone.
abbrev pub reaches : Membership → ℕ → Bool
reaches m b = is_company_wide m.role || (is_branch_scoped m.role && is_some_of m.branch_id b)

reach-resolve_branch_access :
    (role : MembershipRole) (branch : Option ℕ) (m : Membership) (b : ℕ)
    → m.role ≡ role
    → m.branch_id ≡ branch
    → scope_reaches_branch (resolve_branch_access (m ∷ [])) b ≡ reaches m b
unfolding resolve_branch_access scope_reaches_branch
reach-resolve_branch_access role none m b p q = ground arith
reach-resolve_branch_access role (some c) m b p q = ground arith

-- What a caller may do in a branch, from the rows of the memberships: some one membership's role
-- grants the permission, and that membership is company-wide or is in this branch.
pub can_exercise-resolve_entitlements :
    (ms : List Membership) (p : Permission) (b : ℕ)
    → can_exercise_permission_in_branch (resolve_entitlements ms) p b
      ≡ any (λ m. reaches m b && has (role_permissions m.role) p) ms
unfolding can_exercise_permission_in_branch resolve_entitlements
can_exercise-resolve_entitlements [] p b = refl
can_exercise-resolve_entitlements (m ∷ ms) p b =
    rw
      (
        reach-resolve_branch_access m.role m.branch_id m b refl refl,
        has-permissions_for_roles m.role p,
        can_exercise-resolve_entitlements ms p b,
      )
      refl
