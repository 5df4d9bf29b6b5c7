-- ===== src/Orgs/Invitations.antt =====
-- Acceptance of an invitation: `lock_active_team_sub` and `accept_invitation` of
-- apps/orgs/services.py. The invitation is a row that was read before, and its org is in the
-- database.
pub mod SeatCap
use saasmint_core.Base.{
  ℕ, suc, ◌==◌, ltb, String, Bool, true, false, not, ◌&&◌, Option, none, some, List, [], ◌∷◌, ◌++◌,
  str_eq, option_eq, any, count, select, update, if◌then◌else◌,
}
use saasmint_core.Python.{Exn}
use saasmint_core.Domain.{
  Uuid, Subscription, User, OrgMember, OrgRole, Invitation, InvitationStatus, TokenKind,
}
use saasmint_core.State.{
  Env, Db, Action, Task, pure, raise, gets, modify, draw, enqueue, atomic, ◌>>=◌, ◌>>◌,
}
use saasmint_core.Repositories.Customers
use saasmint_core.Repositories.Subscriptions
use saasmint_core.Accounts.Users.{create_user}
use saasmint_core.Tokens.{create_one_time_token}

-- The join of a subscription to the org of its customer.
abbrev pub customer_has_org : Db → Uuid → Subscription → Bool
customer_has_org db o s = elim s.stripe_customer_id [
  | none ↦ false
  | some c ↦ any (λ row. Customers.has_id c row && Customers.has_org o row) db.customers
]

-- The row with the least id: `.first()` of a query set that is not ordered orders it by the key.
unfoldable pub least : List Subscription → Option Subscription
least [] = none
least (s ∷ rest) = some (elim (least rest) [ none ↦ s | some t ↦ if ltb t.id s.id then t else s ])

unfoldable pub lock_active_team_sub : Uuid → Action (Option Subscription)
unfolding least
lock_active_team_sub o = gets (λ db.
    least (select (λ s. Subscriptions.is_active s && customer_has_org db o s) db.subscriptions))

abbrev pub in_org : Uuid → OrgMember → Bool
in_org o m = m.org_id == o

-- `member_count + 1 > sub.seat_limit`, where there is a subscription.
abbrev pub is_full : Option Subscription → ℕ → Bool
is_full none members = false
is_full (some sub) members = ltb sub.seat_limit (suc members)

-- An owner has to be a billing member, which an invited member is not.
abbrev pub insert_member : OrgRole → (i org user : Uuid) → Action (Unit {0})
insert_member OrgRole.owner i org user = raise Exn.integrity_error
insert_member role i org user = modify λ db. record db {
  members =
      db.members
      ++ record { id = i; org_id = org; user_id = user; role = role; is_billing = false } ∷ [];
}

unfoldable pub set_status : Uuid → InvitationStatus → Action (Unit {0})
set_status i status = modify λ db. record db {
  invitations =
      update (λ (row : Invitation). row.id == i) (λ row. record row { status = status })
        db.invitations;
}

module _ (env : Env) where
  -- What follows the new user.
  unfoldable pub join : Invitation → User → Action (User × Uuid)
  join invitation user = do
    i ← draw
    insert_member invitation.role i invitation.org_id user.id
    set_status invitation.id InvitationStatus.accepted
    token ← create_one_time_token env TokenKind.email_verification user.id
    enqueue (Task.send_verification_email user.email token)
    pure (user, invitation.org_id)

  abbrev pub accept_unless_full : (full : Bool) → Invitation → String → Action (User × Uuid)
  accept_unless_full true invitation full_name = raise Exn.seat_cap_reached
  accept_unless_full false invitation full_name = do
    user ← create_user env invitation.email full_name none false
    join invitation user

  -- The body of the transaction.
  unfoldable pub accept_body : Invitation → String → Action (User × Uuid)
  accept_body invitation full_name = do
    sub ← lock_active_team_sub invitation.org_id
    members ← gets (λ db. count (in_org invitation.org_id) db.members)
    accept_unless_full (is_full sub members) invitation full_name

  unfoldable pub accept_invitation : Invitation → (full_name : String) → Action (User × Uuid)
  accept_invitation invitation full_name = atomic (accept_body invitation full_name)
