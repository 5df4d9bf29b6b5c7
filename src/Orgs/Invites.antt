-- ===== src/Orgs/Invites.antt =====
-- The views of invitations in apps/orgs/views.py.
pub mod Seats
use saasmint_core.Base.{
  ℕ, ◌+◌, ◌*◌, ◌==◌, leb, ltb, Bool, true, false, not, ◌&&◌, ◌||◌, Option, none, some, [], ◌∷◌,
  ◌++◌, String, str_eq, first, any, count, if◌then◌else◌,
}
use saasmint_core.Python.{Exn, DateTime}
use saasmint_core.Domain.{Uuid, User, Subscription, Org, OrgRole, Invitation, InvitationStatus}
use saasmint_core.State.{
  Env, Db, Action, Task, pure, raise, gets, modify, draw, now, enqueue, atomic, try_except, ◌>>=◌,
  ◌>>◌,
}
use saasmint_core.Tokens.{seconds}
use saasmint_core.Accounts.Users.{email_is_registered}
use saasmint_core.Orgs.Access.{admin_or_above, get_org_and_member, not_found}
use saasmint_core.Orgs.Invitations.{in_org, lock_active_team_sub, set_status, accept_invitation}

abbrev pub email_registered : Exn
email_registered = Exn.api_exception 409 "email_exists"

abbrev pub invitation_pending : Exn
invitation_pending = Exn.api_exception 409 "invitation_pending"

abbrev pub seat_limit_reached : Exn
seat_limit_reached = Exn.api_exception 409 "seat_limit_reached"

abbrev pub invitation_expired : Exn
invitation_expired = Exn.api_exception 410 "invitation_expired"

abbrev pub addressed_to_other : Exn
addressed_to_other = Exn.api_exception 403 "forbidden"

-- `INVITATION_EXPIRY_DAYS`
abbrev pub invitation_lifetime : DateTime
invitation_lifetime = seconds (7 * 24 * 3600)

abbrev pub is_pending : Invitation → Bool
is_pending row = elim row.status [ InvitationStatus.pending ↦ true | _ ↦ false ]

abbrev pub is_pending_in : Uuid → Invitation → Bool
is_pending_in org row = row.org_id == org && is_pending row

abbrev pub is_pending_for : (org : Uuid) → (email : String) → Invitation → Bool
is_pending_for org email row = is_pending_in org row && str_eq row.email email

-- `member_count + pending_count >= sub.seat_limit`, where there is a subscription.
abbrev pub has_no_seat : Option Subscription → (members pending : ℕ) → Bool
has_no_seat none members pending = false
has_no_seat (some sub) members pending = leb sub.seat_limit (members + pending)

abbrev pub has_token : String → Invitation → Bool
has_token token row = str_eq row.token token

abbrev pub insert_invitation : (clash : Bool) → Invitation → Action (Unit {0})
insert_invitation true row = raise Exn.integrity_error
insert_invitation false row = modify λ db. record db { invitations = db.invitations ++ row ∷ [] }

abbrev pub invitation_row :
    Uuid → (org inviter : Uuid) → (email token : String) → OrgRole → DateTime → Invitation
invitation_row i org inviter email token role t = record {
  id = i;
  org_id = org;
  email = email;
  role = role;
  token = token;
  status = InvitationStatus.pending;
  invited_by = some inviter;
  expires_at = t + invitation_lifetime;
}

-- The insert, and the message that is sent at the commit.
abbrev pub insert_and_send : (clash : Bool) → User → Org → Invitation → Action Invitation
insert_and_send clash inviter org row = do
  insert_invitation clash row
  enqueue (Task.send_invitation_email row.email row.token org.name inviter.full_name)
  pure row

abbrev pub invite_unless_full :
    (full : Bool) → User → Org → (email token : String) → OrgRole → Action Invitation
invite_unless_full true inviter org email token role = raise seat_limit_reached
invite_unless_full false inviter org email token role = do
  i ← draw
  t ← now
  clash ←
      gets
        (λ db. any (λ row. has_token token row || is_pending_for org.id email row) db.invitations)
  insert_and_send clash inviter org (invitation_row i org.id inviter.id email token role t)

-- `_validate_seat_limit`, and the insert in the same transaction.
unfoldable pub invite_body : User → Org → (email token : String) → OrgRole → Action Invitation
invite_body inviter org email token role = do
  sub ← lock_active_team_sub org.id
  members ← gets (λ db. count (in_org org.id) db.members)
  pending ← gets (λ db. count (is_pending_in org.id) db.invitations)
  invite_unless_full (has_no_seat sub members pending) inviter org email token role

-- `InvitationCancelView.delete`, once the invitation is looked up.
abbrev pub cancel_if_found : Option Invitation → Action (Unit {0})
cancel_if_found none = raise not_found
cancel_if_found (some row) = set_status row.id InvitationStatus.cancelled

unfoldable pub cancel_invitation : (user org invitation : Uuid) → Action (Unit {0})
cancel_invitation user org invitation = do
  caller ← get_org_and_member user org admin_or_above
  found ← gets (λ db.
      first (λ (row : Invitation). row.id == invitation && is_pending_in org row) db.invitations)
  cancel_if_found found

module _ (env : Env) where
  abbrev pub invite_unless :
      (registered pending : Bool) → User → Org → (email : String) → OrgRole → Action Invitation
  invite_unless true pending inviter org email role = raise email_registered
  invite_unless false true inviter org email role = raise invitation_pending
  invite_unless false false inviter org email role = do
    n ← draw
    atomic (invite_body inviter org email (env.token_urlsafe n) role)

  -- `InvitationListCreateView.post`
  unfoldable pub create_invitation :
      (user : User) → (org : Uuid) → (email : String) → OrgRole → Action Invitation
  create_invitation user org email role = do
    caller ← get_org_and_member user.id org admin_or_above
    registered ← email_is_registered env email
    pending ← gets (λ db. any (is_pending_for org email) db.invitations)
    invite_unless registered pending user caller.0 email role

  -- `except SeatCapReachedAtAcceptError`
  abbrev pub on_cap : {A : Type 0} → Exn → Action A
  on_cap Exn.seat_cap_reached = raise seat_limit_reached
  on_cap e = raise e

  abbrev pub accept_unless_registered :
      (registered : Bool) → Invitation → (full_name : String) → Action (User × Uuid)
  accept_unless_registered true row full_name = raise email_registered
  accept_unless_registered false row full_name =
      try_except (accept_invitation env row full_name) on_cap

  -- An invitation that has expired is marked so, and refused.
  abbrev pub accept_unless_expired :
      (expired : Bool) → Invitation → (full_name : String) → Action (User × Uuid)
  accept_unless_expired true row full_name = do
    set_status row.id InvitationStatus.expired
    raise invitation_expired
  accept_unless_expired false row full_name = do
    registered ← email_is_registered env row.email
    accept_unless_registered registered row full_name

  abbrev pub accept_found : Option Invitation → (full_name : String) → Action (User × Uuid)
  accept_found none full_name = raise not_found
  accept_found (some row) full_name =
      λ w. accept_unless_expired (ltb row.expires_at w.clock) row full_name w

  -- `InvitationAcceptView.post`
  unfoldable pub accept : (token full_name : String) → Action (User × Uuid)
  accept token full_name = do
    found ← gets (λ db. first (λ row. has_token token row && is_pending row) db.invitations)
    accept_found found full_name

  abbrev pub decline_if : (addressed : Bool) → Invitation → Action (Unit {0})
  decline_if false row = raise addressed_to_other
  decline_if true row = set_status row.id InvitationStatus.declined

  abbrev pub decline_found : User → Option Invitation → Action (Unit {0})
  decline_found user none = raise not_found
  decline_found user (some row) =
      decline_if (str_eq (env.lower user.email) (env.lower row.email)) row

  -- `InvitationDeclineView.post`
  unfoldable pub decline : (user : User) → (token : String) → Action (Unit {0})
  decline user token = do
    found ← gets (λ db. first (λ row. has_token token row && is_pending row) db.invitations)
    decline_found user found
