-- ===== src/Orgs/Deletion/Kept.antt =====
-- What the deletion of orgs spares.
use saasmint_core.Base.{
  ◌==◌, Bool, true, false, not, ◌&&◌, List, [], ◌∷◌, ◌≡◌, refl, ap, ◌∙◌, arith, first, any, select,
  delete, All-map, All-any, select-delete, first-delete_spared, each-All, ==_iff, ==_refl,
  Bool-cases, inl, inr, String,
}
use saasmint_core.Domain.{Uuid, Org, OrgMember, User}
use saasmint_core.State.{Env, World}
use saasmint_core.Accounts.Users.{has_id}
use saasmint_core.Orgs.Creation.{has_org_id, is_member}
use saasmint_core.Orgs.Invitations.{in_org}
use saasmint_core.Orgs.Deletion.{
  IdSet, has_other, has_personal_sub, deletable, delete_rows, delete_org_db_only, delete_org,
  get_active_stripe_sub, cancel_in_stripe, created_by, one_of, delete_orgs,
  delete_orgs_created_by_user, just,
}

-- The memberships of an org, the accounts of its members, and the accounts of those who pay for a
-- subscription of their own are as they were.
pub record IsSpared (o : Uuid) (w w' : World) : Type 0 where
  pub members : select (in_org o) w'.db.members ≡ select (in_org o) w.db.members
  pub accounts :
      (u : Uuid)
      → any (is_member o u) w.db.members ≡ true
      → first (has_id u) w'.db.users ≡ first (has_id u) w.db.users
  pub payers :
      (u : Uuid)
      → has_personal_sub w.db u ≡ true
      → first (has_id u) w'.db.users ≡ first (has_id u) w.db.users

-- A user with a membership outside of the orgs is not deleted.
not_deletable :
    (orgs : IdSet) (w : World) (u : Uuid)
    → has_other orgs w.db u ≡ true
    → deletable orgs w.db u ≡ false
unfolding deletable
not_deletable orgs w u h = ground (arith, h)

payer-not_deletable :
    (orgs : IdSet) (w : World) (u : Uuid)
    → has_personal_sub w.db u ≡ true
    → deletable orgs w.db u ≡ false
unfolding deletable
payer-not_deletable orgs w u h = elim (Bool-cases (has_personal_sub w.db u)) [
  | inl own ↦ rw own (and_false (has_other orgs w.db u) _)
  | inr lacks ↦ cc
]
  where
    and_false : (a b : Bool) → b && (not a && false) ≡ false
    and_false a b = ground arith

-- A delete of accounts leaves those that are not of the set.
spares_account :
    (d : IdSet) (u : Uuid) (us : List User)
    → d u ≡ false
    → first (has_id u) (delete (λ (x : User). d x.id) us) ≡ first (has_id u) us
spares_account d u us kept =
    first-delete_spared (has_id u) (λ x. d x.id) us (λ x e. ap d ((==_iff x.id u).0 e) ∙ kept)

module _ (orgs : IdSet) (o : Uuid) (outside : orgs o ≡ false) where
  in_org-outside : (m : OrgMember) → in_org o m ≡ true → orgs m.org_id ≡ false
  in_org-outside m e = ap orgs ((==_iff m.org_id o).0 e) ∙ outside

  -- A member of the org has a membership outside of the orgs.
  any-has_other :
      (u : Uuid) (ms : List OrgMember)
      → any (is_member o u) ms ≡ true
      → any (λ (x : OrgMember). x.user_id == u && not (orgs x.org_id)) ms ≡ true
  any-has_other u [] h = cc
  any-has_other u (m ∷ ms) h = ground (arith, any-has_other u ms, in_org-outside m)

  spares_members :
      (w : World)
      → select (in_org o) (delete (λ (m : OrgMember). deletable orgs w.db m.user_id) w.db.members)
        ≡ select (in_org o) w.db.members
  spares_members w =
      select-delete (in_org o) (λ m. deletable orgs w.db m.user_id) w.db.members
        (All-map _ _ w.db.members
          (λ m k mine.
            not_deletable orgs w m.user_id
              (any-has_other m.user_id w.db.members (k (ground (arith, mine, ==_refl m.user_id)))))
          (All-any (λ m x. is_member o m.user_id x) w.db.members))

  again :
      (ms : List OrgMember)
      → select (in_org o) (delete (λ (m : OrgMember). orgs m.org_id) ms) ≡ select (in_org o) ms
  again ms =
      select-delete (in_org o) (λ m. orgs m.org_id) ms (each-All _ ms (λ m. in_org-outside m))

  delete_rows-IsSpared : (w : World) → IsSpared o w (delete_rows orgs w).1
  unfolding deletable
  delete_rows-IsSpared w = record {
    members = again _ ∙ (again _ ∙ spares_members w);
    accounts = λ u inside.
        spares_account (deletable orgs w.db) u w.db.users
          (not_deletable orgs w u (any-has_other u w.db.members inside));
    payers = λ u own.
        spares_account (deletable orgs w.db) u w.db.users (payer-not_deletable orgs w u own);
  }

-- What the queue gets does not matter.
cancel-IsSpared :
    (ids : List String) (label : String) (o : Uuid) (w w' : World)
    → IsSpared o w w'
    → IsSpared o w (cancel_in_stripe ids label w').1
cancel-IsSpared [] label o w w' h = h
cancel-IsSpared (id ∷ ids) label o w w' h = record {
  members = h.members;
  accounts = h.accounts;
  payers = h.payers;
}

outside_list :
    (user o : Uuid) (orgs : List Org)
    → any (λ x. created_by user x && has_org_id o x) orgs ≡ false
    → one_of (select (created_by user) orgs) o ≡ false
outside_list user o [] h = refl
outside_list user o (x ∷ xs) h = ground (arith, outside_list user o xs)

unchanged : (o : Uuid) (w : World) → IsSpared o w w
unchanged o w = record { members = refl; accounts = λ u h. refl; payers = λ u h. refl }

delete_orgs-IsSpared :
    (env : Env) (user o : Uuid) (orgs : List Org) (w : World)
    → one_of orgs o ≡ false
    → IsSpared o w (delete_orgs env orgs user w).1
delete_orgs-IsSpared env user o [] w outside = unchanged o w
delete_orgs-IsSpared env user o (x ∷ xs) w outside =
    cancel-IsSpared _ _ o w _ (delete_rows-IsSpared (one_of (x ∷ xs)) o outside w)

-- The deletion of an org, and the deletion of all orgs that a user created, leave every org that
-- is not among them its memberships and the accounts of its members, and leave everyone with an
-- active subscription of their own their account.
pub deletion_spares :
    (env : Env) (org user o : Uuid) (w : World)
    → (o == org) ≡ false
    → any (λ x. created_by user x && has_org_id o x) w.db.orgs ≡ false
    → IsSpared o w (delete_org env org w).1
      × IsSpared o w (delete_orgs_created_by_user env user w).1
unfolding delete_org get_active_stripe_sub delete_org_db_only delete_orgs_created_by_user
deletion_spares env org user o w other foreign = (
  cancel-IsSpared _ _ o w _ (delete_rows-IsSpared (just org) o other w),
  delete_orgs-IsSpared env user o _ w (outside_list user o w.db.orgs foreign),
)
