-- ===== src/Orgs/Roles.antt =====
-- The role hierarchy: core/saasmint_core/services/orgs.py.
use saasmint_core.Base.{ℕ, leb, ◌≡◌, arith}
use saasmint_core.Python.{Exn, Result, ok, err, raise_if}
use saasmint_core.Domain.{OrgRole}

-- `ORG_ROLE_RANK`
abbrev pub org_role_rank : OrgRole → ℕ
org_role_rank OrgRole.owner = 3
org_role_rank OrgRole.admin = 2
org_role_rank OrgRole.member = 1

unfoldable pub check_can_manage_member : (caller_role target_role : OrgRole) → Result (Unit {0})
check_can_manage_member caller_role target_role =
    raise_if (leb (org_role_rank caller_role) (org_role_rank target_role))
      Exn.insufficient_permission

unfoldable pub check_can_assign_role : (caller_role new_role : OrgRole) → Result (Unit {0})
check_can_assign_role caller_role new_role =
    raise_if (leb (org_role_rank caller_role) (org_role_rank new_role)) Exn.insufficient_permission

-- Where a caller may assign a role, and that role may manage a target, the caller may manage the
-- target too, and the role may not manage the caller.
pub no_escalation :
    (caller new target : OrgRole)
    → check_can_assign_role caller new ≡ ok tt
    → check_can_manage_member new target ≡ ok tt
    → (check_can_manage_member caller target ≡ ok tt)
      × (check_can_manage_member new caller ≡ err Exn.insufficient_permission)
unfolding check_can_assign_role check_can_manage_member
no_escalation caller new target may manages = (ground arith, ground arith)
