-- ===== src/Orgs/Access.antt =====
-- Who may act on an org: `_get_org_and_member` of apps/orgs/views.py, and the changes of members
-- that its views make.
pub mod Transfer
use saasmint_core.Base.{
  String, ◌==◌, Bool, true, false, not, ◌&&◌, ◌||◌, Option, none, some, first, any, update,
  if◌then◌else◌,
}
use saasmint_core.Python.{Exn}
use saasmint_core.Domain.{Uuid, Org, OrgMember, OrgRole}
use saasmint_core.State.{Db, Action, pure, raise, lift, gets, modify, atomic, ◌>>=◌, ◌>>◌}
use saasmint_core.Orgs.Roles.{check_can_manage_member, check_can_assign_role}
use saasmint_core.Orgs.Creation.{has_org_id, is_member, is_owner}

-- `_ADMIN_OR_ABOVE`, `_OWNER_ONLY`, and no restriction
abbrev pub admin_or_above : OrgRole → Bool
admin_or_above OrgRole.member = false
admin_or_above _ = true

abbrev pub owner_only : OrgRole → Bool
owner_only OrgRole.owner = true
owner_only _ = false

abbrev pub is_admin : OrgRole → Bool
is_admin OrgRole.admin = true
is_admin _ = false

abbrev pub not_found : Exn
not_found = Exn.api_exception 404 "not_found"

abbrev pub unless_gone : Option Org → OrgMember → Action (Org × OrgMember)
unless_gone none m = raise Exn.does_not_exist
unless_gone (some org) m = pure (org, m)

abbrev pub if_allowed : (allowed : Bool) → OrgMember → Action (Org × OrgMember)
if_allowed false m = raise Exn.insufficient_permission
if_allowed true m = λ w. unless_gone (first (has_org_id m.org_id) w.db.orgs) m w

abbrev pub as_member : Option OrgMember → (org : Uuid) → (OrgRole → Bool) → Action (Org × OrgMember)
as_member none org allowed = do
  exists ← gets (λ db. any (has_org_id org) db.orgs)
  raise (if exists then Exn.insufficient_permission else Exn.org_not_found)
as_member (some m) org allowed = if_allowed (allowed m.role) m

-- `_get_org_and_member`
unfoldable pub get_org_and_member :
    (user org : Uuid) → (allowed : OrgRole → Bool) → Action (Org × OrgMember)
get_org_and_member user org allowed = do
  member ← gets (λ db. first (is_member org user) db.members)
  as_member member org allowed

-- `get_object_or_404(OrgMember, org_id=…, user_id=…)`
abbrev pub member_or_404 : Option OrgMember → Action OrgMember
member_or_404 none = raise not_found
member_or_404 (some m) = pure m

abbrev pub has_member_id : OrgMember → OrgMember → Bool
has_member_id m row = row.id == m.id

-- An owner has to be a billing member, and owns no other org.
abbrev pub violates : OrgMember → Db → Bool
violates m db =
    is_owner m
    && (not m.is_billing
        || any (λ row. not (has_member_id m row) && (is_owner row && row.user_id == m.user_id))
            db.members)

-- The save of the role and the billing flag of a member.
abbrev pub save_unless : (clash : Bool) → OrgMember → Action (Unit {0})
save_unless true m = raise Exn.integrity_error
save_unless false m = modify λ db. record db {
  members =
      update (has_member_id m) (λ row. record row { role = m.role; is_billing = m.is_billing })
        db.members;
}

unfoldable pub save_member : OrgMember → Action (Unit {0})
save_member m = do clash ← gets (violates m); save_unless clash m

-- The fields of `UpdateMemberSerializer` that the request gives.
abbrev pub role_or : Option OrgRole → OrgRole → OrgRole
role_or none role = role
role_or (some new) role = new

abbrev pub flag_or : Option Bool → Bool → Bool
flag_or none b = b
flag_or (some new) b = new

abbrev pub check_new_role : (caller : OrgRole) → Option OrgRole → Action (Unit {0})
check_new_role caller none = pure tt
check_new_role caller (some new) = lift (check_can_assign_role caller new)

abbrev pub save_if_given : Option OrgRole → Option Bool → OrgMember → Action OrgMember
save_if_given none none target = pure target
save_if_given role is_billing target = do
  let changed : OrgMember = record target {
    role = role_or role target.role;
    is_billing = flag_or is_billing target.is_billing;
  }
  save_member changed
  pure changed

-- `OrgMemberDetailView.patch`
unfoldable pub update_member :
    (user org member : Uuid) → Option OrgRole → (is_billing : Option Bool) → Action OrgMember
update_member user org member role is_billing = do
  caller ← get_org_and_member user org admin_or_above
  found ← gets (λ db. first (is_member org member) db.members)
  target ← member_or_404 found
  lift (check_can_manage_member caller.1.role target.role)
  check_new_role caller.1.role role
  save_if_given role is_billing target

-- The two saves of a transfer.
abbrev pub new_owner : OrgMember → OrgMember
new_owner m = record m { role = OrgRole.owner; is_billing = true }

abbrev pub former_owner : OrgMember → OrgMember
former_owner m = record m { role = OrgRole.admin; is_billing = false }

unfoldable pub hand_over : (target caller : OrgMember) → Action OrgMember
hand_over target caller =
    atomic (do
      save_member (new_owner target)
      save_member (former_owner caller)
      pure (new_owner target))

abbrev pub transfer_if_admin : (admin : Bool) → (target caller : OrgMember) → Action OrgMember
transfer_if_admin false target caller = raise Exn.insufficient_permission
transfer_if_admin true target caller = hand_over target caller

abbrev pub transfer_to : Option OrgMember → (caller : OrgMember) → Action OrgMember
transfer_to none caller = raise not_found
transfer_to (some target) caller = transfer_if_admin (is_admin target.role) target caller

abbrev pub transfer_from : (user : Uuid) → Org × OrgMember → (org : Uuid) → Action OrgMember
transfer_from user caller org =
    λ w. transfer_to (first (is_member org user) w.db.members) caller.1 w

-- `OrgOwnerView.post`, to the member with the user's id that the request names.
unfoldable pub transfer_ownership : (user org new : Uuid) → Action OrgMember
transfer_ownership user org new = do
  caller ← get_org_and_member user org owner_only
  transfer_from new caller org

-- The name that `UpdateOrgSerializer` gives; the logo is no column of the model.
abbrev pub rename_org : Option String → Org → Action Org
rename_org none org = pure org
rename_org (some name) org = do
  modify λ db. record db {
    orgs = update (has_org_id org.id) (λ (row : Org). record row { name = name }) db.orgs;
  }
  pure (record org { name = name })

-- `OrgDetailView.patch`
unfoldable pub update_org : (user org : Uuid) → (name : Option String) → Action Org
update_org user org name = do
  caller ← get_org_and_member user org admin_or_above
  rename_org name caller.0
