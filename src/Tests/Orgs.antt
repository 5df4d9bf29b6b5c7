-- ===== src/Tests/Orgs.antt =====
-- The org theorems at an org of three seats with one member.
use saasmint_core.Base.{false, true, ◌≤◌, some, List, [], ◌∷◌, ◌≡◌, refl, count, arith, none}
use saasmint_core.Python.{Exn, ok, err}
use saasmint_core.State.{World, StripeCall}
use saasmint_core.Accounts.Users.{new_user, create_user}
use saasmint_core.Tokens.{create_token, create_one_time_token}
use saasmint_core.Orgs.Invitations.{
  in_org, lock_active_team_sub, set_status, join, accept_body, accept_invitation,
}
use saasmint_core.Orgs.Invitations.SeatCap.{accept_seat_cap}
use saasmint_core.Orgs.Cancellation.{
  is_stripe_error, cancel_stripe_subs_task, cancel_request, cancel_all_asked,
}
use saasmint_core.Tests.Data.{env, db, world, invitation, subscription}

locked : (lock_active_team_sub 5 world).0 ≡ ok (some subscription)
unfolding lock_active_team_sub
locked = refl

accepted :
    (accept_invitation env invitation "Bob" world).0
    ≡ ok (new_user 40 "bob@example.org" "Bob" none false, 5)
unfolding accept_invitation accept_body lock_active_team_sub create_user join set_status
    create_one_time_token create_token
accepted = refl

accept_seat_cap_example :
    count (in_org 5) (accept_invitation env invitation "Bob" world).1.db.members ≤ 2
accept_seat_cap_example =
    accept_seat_cap env invitation "Bob" world subscription
      (new_user 40 "bob@example.org" "Bob" none false, 5) locked accepted

-- A state in which the invited email has an account.
abbrev taken : World
taken = record world {
  db = record db { users = new_user 6 "bob@example.org" "Robert" none false ∷ [] };
}

-- The env raises only exceptions of the SDK.
raises :
    (calls : List StripeCall) (c : StripeCall) (e : Exn)
    → env.respond calls c ≡ err e
    → is_stripe_error e ≡ true
raises calls c e q = ground arith

cancel_all_asked_example :
    (cancel_stripe_subs_task env ("sub_gone" ∷ "sub_down" ∷ "sub_1" ∷ []) world).1.stripe_calls
    ≡ cancel_request "sub_gone" ∷ cancel_request "sub_down" ∷ cancel_request "sub_1" ∷ []
cancel_all_asked_example =
    cancel_all_asked env raises ("sub_gone" ∷ "sub_down" ∷ "sub_1" ∷ []) world
