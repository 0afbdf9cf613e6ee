-- ===== src/Identity/Roles.antt =====
-- modules/authorization/permission.enum.ts, modules/identity/membership-role.ts and
-- modules/identity/role-permissions.ts. A permission is compared by the position of its string
-- value in the catalog.
use voyagi.Prelude.{
  ℕ, ◌≡◌, refl, Bool, true, ◌&&◌, List, [], ◌∷◌, ◌++◌, map, includes, includes-add_all, add_all,
  arith, if◌then◌else◌,
}

pub data Permission : Type 0 where
  companies_read companies_update memberships_read memberships_manage : Permission
  branches_read branches_manage staff_read staff_manage fleet_read fleet_manage : Permission
  routes_read routes_manage trips_read trips_manage : Permission
  bookings_read bookings_create bookings_cancel : Permission
  payments_read payments_confirm payments_refund commissions_read : Permission
  tickets_read tickets_issue tickets_validate : Permission
  maintenance_read maintenance_manage audit_read : Permission

unfoldable pub value : Permission → ℕ
value companies_read = 0
value companies_update = 1
value memberships_read = 2
value memberships_manage = 3
value branches_read = 4
value branches_manage = 5
value staff_read = 6
value staff_manage = 7
value fleet_read = 8
value fleet_manage = 9
value routes_read = 10
value routes_manage = 11
value trips_read = 12
value trips_manage = 13
value bookings_read = 14
value bookings_create = 15
value bookings_cancel = 16
value payments_read = 17
value payments_confirm = 18
value payments_refund = 19
value commissions_read = 20
value tickets_read = 21
value tickets_issue = 22
value tickets_validate = 23
value maintenance_read = 24
value maintenance_manage = 25
value audit_read = 26

-- `permissions.includes(permission)`
abbrev pub has : List Permission → Permission → Bool
has ps p = includes (map value ps) (value p)

-- The catalog, in the order of the enum.
unfoldable pub all_permissions : List Permission
all_permissions =
    companies_read ∷ companies_update ∷ memberships_read ∷ memberships_manage ∷ branches_read
    ∷ branches_manage ∷ staff_read ∷ staff_manage ∷ fleet_read ∷ fleet_manage ∷ routes_read
    ∷ routes_manage ∷ trips_read ∷ trips_manage ∷ bookings_read ∷ bookings_create ∷ bookings_cancel
    ∷ payments_read ∷ payments_confirm ∷ payments_refund ∷ commissions_read ∷ tickets_read
    ∷ tickets_issue ∷ tickets_validate ∷ maintenance_read ∷ maintenance_manage ∷ audit_read ∷ []

pub data MembershipRole : Type 0 where
  super_admin company_manager branch_employee agent passenger : MembershipRole

unfoldable pub company_read_permissions : List Permission
company_read_permissions =
    companies_read ∷ branches_read ∷ staff_read ∷ fleet_read ∷ routes_read ∷ trips_read
    ∷ bookings_read ∷ payments_read ∷ tickets_read ∷ maintenance_read ∷ []

unfoldable pub role_permissions : MembershipRole → List Permission
role_permissions super_admin = all_permissions
role_permissions company_manager = all_permissions
role_permissions branch_employee = company_read_permissions
role_permissions agent = company_read_permissions ++ bookings_create ∷ commissions_read ∷ []
role_permissions passenger = []

-- The loops over the roles and over the grants of each, into one set.
abbrev pub grant_roles : List MembershipRole → List ℕ → List ℕ
grant_roles [] granted = granted
grant_roles (role ∷ roles) granted =
    grant_roles roles (add_all (map value (role_permissions role)) granted)

-- `ALL_PERMISSIONS.filter((permission) => granted.has(permission))`
abbrev pub filter_granted : List ℕ → List Permission → List Permission
filter_granted granted [] = []
filter_granted granted (p ∷ ps) =
    if includes granted (value p) then p ∷ filter_granted granted ps else filter_granted granted ps

unfoldable pub permissions_for_roles : List MembershipRole → List Permission
permissions_for_roles roles = filter_granted (grant_roles roles []) all_permissions

pub has-filter_granted :
    (granted : List ℕ) (ps : List Permission) (p : Permission)
    → has (filter_granted granted ps) p ≡ (has ps p && includes granted (value p))
has-filter_granted granted [] p = refl
has-filter_granted granted (q ∷ ps) p = ground (arith, has-filter_granted granted ps p)

pub has-all_permissions : (p : Permission) → has all_permissions p ≡ true
unfolding all_permissions value
has-all_permissions companies_read = refl
has-all_permissions p = refl

-- One role yields exactly its own grants.
pub has-permissions_for_roles :
    (role : MembershipRole) (p : Permission)
    → has (permissions_for_roles (role ∷ [])) p ≡ has (role_permissions role) p
unfolding permissions_for_roles
has-permissions_for_roles role p =
    rw
      (
        has-filter_granted _ all_permissions p,
        has-all_permissions p,
        includes-add_all (map value (role_permissions role)) [] (value p),
      )
      refl
