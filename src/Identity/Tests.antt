-- ===== src/Identity/Tests.antt =====
-- Callers with two memberships: an agent of branch 7 and a manager of the whole company.
use voyagi.Prelude.{◌≡◌, refl, arith, ◌<◌, ◌≤◌, true, ◌&&◌, any, List, [], ◌∷◌, none, some}
use voyagi.Identity.Identifier.{Text, decimal, max_bigint, parse_positive_bigint}
use voyagi.Identity.Numeral.{numeral, parse_positive_bigint_range, parse_positive_bigint-numeral}
use voyagi.Identity.Roles.{
  bookings_create, payments_refund, has, role_permissions, agent, company_manager,
}
use voyagi.Identity.Access.{
  Membership, Entitlement, resolve_entitlements, can_exercise_permission_in_branch,
  effective_permissions_for_branch,
}
use voyagi.Identity.Scope.{access_scope, in_scope, shows, readable_branch_scope, can_read_branch}
use voyagi.Identity.Coupling.{
  effective-iff-can_exercise, in_scope-access_scope, readable_branch_scope-iff-can_read,
  can_exercise-resolve_entitlements, reaches,
}

abbrev agent_of_branch : Membership
agent_of_branch = record {
  id = 1;
  user_id = 40;
  company_id = 3;
  branch_id = some 7;
  role = agent;
  is_active = true;
  created_at = 0;
  updated_at = 0;
}

abbrev manager : Membership
manager = record {
  id = 2;
  user_id = 40;
  company_id = 3;
  branch_id = none;
  role = company_manager;
  is_active = true;
  created_at = 0;
  updated_at = 0;
}

abbrev both : List Entitlement
both = resolve_entitlements (agent_of_branch ∷ manager ∷ [])

effective-iff-can_exercise_example :
    has (effective_permissions_for_branch both 9) bookings_create
    ≡ can_exercise_permission_in_branch both bookings_create 9
effective-iff-can_exercise_example = effective-iff-can_exercise both bookings_create 9

in_scope-access_scope_example :
    in_scope (access_scope both payments_refund) (some 7)
    ≡ can_exercise_permission_in_branch both payments_refund 7
in_scope-access_scope_example = in_scope-access_scope both payments_refund 7

readable_branch_scope-iff-can_read_example :
    shows (readable_branch_scope (resolve_entitlements (agent_of_branch ∷ []))) 8
    ≡ can_read_branch (resolve_entitlements (agent_of_branch ∷ [])) 8
readable_branch_scope-iff-can_read_example =
    readable_branch_scope-iff-can_read (resolve_entitlements (agent_of_branch ∷ [])) 8

can_exercise-resolve_entitlements_example :
    can_exercise_permission_in_branch
      (resolve_entitlements (agent_of_branch ∷ manager ∷ []))
      payments_refund
      7
    ≡ any
        (λ m. reaches m 7 && has (role_permissions m.role) payments_refund)
        (agent_of_branch ∷ manager ∷ [])
can_exercise-resolve_entitlements_example =
    can_exercise-resolve_entitlements (agent_of_branch ∷ manager ∷ []) payments_refund 7

-- The text `42`.
abbrev forty_two : Text
forty_two = b'4' ∷ b'2' ∷ []

accepted : parse_positive_bigint forty_two ≡ some forty_two
unfolding parse_positive_bigint
accepted = refl

parse_positive_bigint_range_example :
    (forty_two ≡ forty_two)
    × (forty_two ≡ numeral (decimal 0 forty_two))
    × (0 < decimal 0 forty_two)
    × (decimal 0 forty_two ≤ max_bigint)
parse_positive_bigint_range_example = parse_positive_bigint_range forty_two accepted

parse_positive_bigint-numeral_example :
    (parse_positive_bigint (numeral 42) ≡ some (numeral 42)) × (decimal 0 (numeral 42) ≡ 42)
parse_positive_bigint-numeral_example = parse_positive_bigint-numeral 42 (omega arith) (omega arith)
