-- ===== src/Orgs/Deletion/Removed.antt =====
-- What the removal of a member deletes.
use saasmint_core.Base.{
  true, Option, none, some, ◌≡◌, refl, subst, arith, first, ==_iff, first-test,
}
use saasmint_core.Python.{Exn, ok}
use saasmint_core.Domain.{Uuid, Org, OrgMember}
use saasmint_core.State.{World, Action, raise_if, lift, gets, ◌>>=◌, ◌>>◌}
use saasmint_core.State.Ends.{Ends, >>=-Ends}
use saasmint_core.Orgs.Roles.{check_can_manage_member}
use saasmint_core.Orgs.Creation.{is_member, is_owner}
use saasmint_core.Orgs.Access.{admin_or_above, get_org_and_member, member_or_404}
use saasmint_core.Orgs.Deletion.{just, delete_users, remove_member}
use saasmint_core.Accounts.Erasure.Erased.{IsErased, delete_users-Ends}

module _ (caller : Org × OrgMember) (org member : Uuid) where
  abbrev last_step : OrgMember → Action (Unit {0})
  last_step target =
      lift (check_can_manage_member caller.1.role target.role) >> delete_users (just target.user_id)

  -- What follows the look-up of the member.
  abbrev rest : OrgMember → Action (Unit {0})
  rest target = raise_if (is_owner target) Exn.insufficient_permission >> last_step target

  rest-Ends : (target : OrgMember) → Ends (IsErased target.user_id) (rest target)
  rest-Ends target =
      >>=-Ends (IsErased target.user_id) (raise_if (is_owner target) Exn.insufficient_permission)
        (λ _. last_step target)
        (λ _.
          >>=-Ends (IsErased target.user_id)
            (lift (check_can_manage_member caller.1.role target.role))
            (λ _. delete_users (just target.user_id)) (λ _. delete_users-Ends target.user_id))

  is_member-user : (m : OrgMember) → is_member org member m ≡ true → m.user_id ≡ member
  is_member-user m e = (==_iff m.user_id member).0 (ground (arith, e))

  found-Ends : Ends (IsErased member) (
      gets (λ db. first (is_member org member) db.members)
      >>= (λ found. member_or_404 found >>= rest))
  found-Ends = record { run = λ w a q. go w a (first (is_member org member) w.db.members) refl q }
    where
      go :
          (w : World) (a : Unit {0}) (o : Option OrgMember)
          → first (is_member org member) w.db.members ≡ o
          → ((member_or_404 o >>= rest) w).0 ≡ ok a
          → IsErased member ((member_or_404 o >>= rest) w).1
      go w a none e q = cc
      go w a (some t) e q =
          subst (λ i. IsErased i (rest t w).1)
            (is_member-user t (first-test (is_member org member) w.db.members e))
            ((rest-Ends t).run w a q)

-- A removal of a member that returns deletes the whole account: no row points to the user any more,
-- whether the user belonged to other orgs, owned one, or paid for a subscription of their own.
pub remove_member-IsErased :
    (user org member : Uuid) (w : World)
    → (remove_member user org member w).0 ≡ ok tt
    → IsErased member (remove_member user org member w).1
unfolding remove_member
remove_member-IsErased user org member w returned =
    (>>=-Ends (IsErased member) (get_org_and_member user org admin_or_above)
        (λ caller.
          gets (λ db. first (is_member org member) db.members)
          >>= (λ found. member_or_404 found >>= rest caller org member))
        (λ caller. found-Ends caller org member)).run
      w tt returned
