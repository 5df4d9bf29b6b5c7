-- ===== src/Tests/Deletion.antt =====
-- The theorems on the deletion of orgs and on the erasure of an account, at a small state.
use saasmint_core.Base.{false, true, none, some, [], ◌∷◌, ◌≡◌, refl, first}
use saasmint_core.Python.{ok}
use saasmint_core.Domain.{StripeCustomer, OrgMember, OrgRole}
use saasmint_core.State.{World, StripeCall}
use saasmint_core.Repositories.Customers
use saasmint_core.Repositories.Subscriptions
use saasmint_core.Orgs.Deletion.{
  deletable, pending_ids, delete_org, delete_orgs_created_by_user, remove_member,
}
use saasmint_core.Orgs.Deletion.Kept.{IsSpared, deletion_spares}
use saasmint_core.Accounts.Erasure.{
  load_user_and_customer, stripe_request, pre_delete, delete_account,
}
use saasmint_core.Accounts.Erasure.Erased.{IsErased, HasLast, delete_account-IsErased}
use saasmint_core.Accounts.Erasure.CreatedOrgs.{IsGone, created_org-IsGone}
use saasmint_core.Orgs.Roles.{check_can_manage_member}
use saasmint_core.Orgs.Access.{get_org_and_member}
use saasmint_core.Orgs.Deletion.Removed.{remove_member-IsErased}
use saasmint_core.Tests.Data.{env, user, customer, db, world}

-- User 7 is a member of org 5, which user 6 created, and of org 8.
abbrev member : OrgMember
member = record { id = 14; org_id = 5; user_id = 7; role = OrgRole.member; is_billing = false }

abbrev ada_customer : StripeCustomer
ada_customer = record customer { id = 3; stripe_id = "cus_3"; user_id = some 6; org_id = none }

abbrev two_orgs : World
two_orgs = record world {
  db = record db {
    orgs =
        record { id = 5; name = "Org"; slug = "org"; created_by = some 6 }
        ∷ record { id = 8; name = "Other"; slug = "other"; created_by = some 9 }
        ∷ [];
    members =
        record { id = 13; org_id = 5; user_id = 6; role = OrgRole.owner; is_billing = true }
        ∷ member
        ∷ record member { id = 15; org_id = 8 }
        ∷ [];
    users = user ∷ record user { id = 7; email = "bob@example.org" } ∷ [];
    customers = customer ∷ ada_customer ∷ [];
  };
}

deletion_spares_example :
    IsSpared 8 two_orgs (delete_org env 5 two_orgs).1
    × IsSpared 8 two_orgs (delete_orgs_created_by_user env 6 two_orgs).1
deletion_spares_example = deletion_spares env 5 6 8 two_orgs refl refl

erased : (delete_account env 6 two_orgs).0 ≡ ok tt
unfolding delete_account load_user_and_customer stripe_request pre_delete Customers.get_by_user_id
    Customers.remove Subscriptions.get_active_for_user delete_orgs_created_by_user pending_ids
    deletable
erased = refl

delete_account-IsErased_example :
    let w' = (delete_account env 6 two_orgs).1 in
    IsErased 6 w'
    × ((c : StripeCustomer)
        → first (Customers.has_user 6) two_orgs.db.customers ≡ some c
        → HasLast (StripeCall.customer_delete c.stripe_id) w')
delete_account-IsErased_example = delete_account-IsErased env 6 two_orgs erased

created_org-IsGone_example : IsGone 5 (delete_account env 6 two_orgs).1
created_org-IsGone_example = created_org-IsGone env 6 5 two_orgs refl erased

-- User 7 is removed from org 5 and loses the account, and the membership in org 8 with it.
removed : (remove_member 6 5 7 two_orgs).0 ≡ ok tt
unfolding remove_member get_org_and_member check_can_manage_member
removed = refl

remove_member-IsErased_example : IsErased 7 (remove_member 6 5 7 two_orgs).1
remove_member-IsErased_example = remove_member-IsErased 6 5 7 two_orgs removed
