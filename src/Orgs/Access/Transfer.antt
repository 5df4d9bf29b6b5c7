-- ===== src/Orgs/Access/Transfer.antt =====
-- A transfer of ownership that is requested again.
use saasmint_core.Base.{
  Bool, true, false, Option, none, some, ◌≡◌, refl, sym, ap, subst, ◌∙◌, first, update,
  if◌then◌else◌, ==_refl, first-update_at, first-update_kept,
}
use saasmint_core.Python.{Exn, Result, ok, err}
use saasmint_core.Domain.{Uuid, Org, OrgMember, OrgRole}
use saasmint_core.State.{World, pure, ◌>>=◌, ◌>>◌}
use saasmint_core.State.Rules.{atomic_ok}
use saasmint_core.Orgs.Creation.{has_org_id, is_member}
use saasmint_core.Orgs.Access.{
  owner_only, is_admin, unless_gone, if_allowed, as_member, get_org_and_member, has_member_id,
  violates, save_unless, save_member, new_owner, former_owner, hand_over, transfer_if_admin,
  transfer_to, transfer_from, transfer_ownership,
}

-- The user is a member of the org, and not its owner.
record IsNoOwner (org user : Uuid) (w : World) : Type 0 where
  member : OrgMember
  found : first (is_member org user) w.db.members ≡ some member
  no_owner : owner_only member.role ≡ false

module _ (user org : Uuid) (w : World) (c : OrgMember)
    (mine : first (is_member org user) w.db.members ≡ some c) (m : OrgMember) where
  handed :
      (t : OrgMember) (clash : Bool)
      → let p : Result OrgMember × World =
          (save_unless clash (new_owner t) >> (save_member (former_owner c) >> pure (new_owner t)))
            w in
        p.0 ≡ ok m → IsNoOwner org user p.1
  unfolding save_member
  handed t true e = cc
  handed t false e =
      let given : OrgMember → OrgMember =
        λ row. record row { role = OrgRole.owner; is_billing = true } in
      let taken : OrgMember → OrgMember =
        λ row. record row { role = OrgRole.admin; is_billing = false } in
      let first_save =
        first-update_kept (is_member org user) (has_member_id (new_owner t)) given w.db.members
          (λ y. refl) mine in
      record {
        member = taken (if has_member_id (new_owner t) c then given c else c);
        found =
            first-update_at (is_member org user) (has_member_id (former_owner c)) taken
              (update (has_member_id (new_owner t)) given w.db.members) (λ y. refl) first_save
              (same_id (has_member_id (new_owner t) c));
        no_owner = refl;
      }
    where
      same_id :
          (b : Bool)
          → has_member_id
              (former_owner c)
              (if b then (record c { role = OrgRole.owner; is_billing = true }) else c)
            ≡ true
      same_id true = ==_refl c.id
      same_id false = ==_refl c.id

  hand_over-IsNoOwner :
      (t : OrgMember) → (hand_over t c w).0 ≡ ok m → IsNoOwner org user (hand_over t c w).1
  unfolding hand_over save_member
  hand_over-IsNoOwner t returned =
      let (body_returned, same) = atomic_ok body w m returned in
      subst (IsNoOwner org user) (sym same) (handed t (violates (new_owner t) w.db) body_returned)
    where
      body : World → Result OrgMember × World
      body = save_member (new_owner t) >> (save_member (former_owner c) >> pure (new_owner t))

  transfer_to-IsNoOwner :
      (o : Option OrgMember)
      → (transfer_to o c w).0 ≡ ok m
      → IsNoOwner org user (transfer_to o c w).1
  transfer_to-IsNoOwner none e = cc
  transfer_to-IsNoOwner (some t) e = go (is_admin t.role) e
    where
      go :
          (b : Bool)
          → (transfer_if_admin b t c w).0 ≡ ok m
          → IsNoOwner org user (transfer_if_admin b t c w).1
      go true q = hand_over-IsNoOwner t q
      go false q = cc

module _ (user org new : Uuid) (w : World) (m : OrgMember) where
  -- What follows the look-up of the caller.
  abbrev rest : Result (Org × OrgMember) × World → Result OrgMember × World
  rest p = ((λ _. p) >>= (λ caller. transfer_from new caller org)) w

  allowed-IsNoOwner :
      (c : OrgMember) (b : Bool)
      → first (is_member org user) w.db.members ≡ some c
      → (rest (if_allowed b c w)).0 ≡ ok m
      → IsNoOwner org user (rest (if_allowed b c w)).1
  allowed-IsNoOwner c false mine e = cc
  allowed-IsNoOwner c true mine e = go (first (has_org_id c.org_id) w.db.orgs) e
    where
      go :
          (o : Option Org)
          → (rest (unless_gone o c w)).0 ≡ ok m
          → IsNoOwner org user (rest (unless_gone o c w)).1
      go none q = cc
      go (some x) q =
          transfer_to-IsNoOwner user org w c mine m (first (is_member org new) w.db.members) q

  transfer-IsNoOwner :
      (transfer_ownership user org new w).0 ≡ ok m
      → IsNoOwner org user (transfer_ownership user org new w).1
  unfolding transfer_ownership get_org_and_member
  transfer-IsNoOwner = go (first (is_member org user) w.db.members) refl
    where
      go :
          (o : Option OrgMember)
          → first (is_member org user) w.db.members ≡ o
          → (rest (as_member o org owner_only w)).0 ≡ ok m
          → IsNoOwner org user (rest (as_member o org owner_only w)).1
      go none e q = cc
      go (some c) e q = allowed-IsNoOwner c (owner_only c.role) e q

  -- After a transfer of ownership that returned, the same request is refused for want of
  -- permission, and changes nothing, whichever member it names: the former owner owns the org no
  -- more.
  pub transfer_again_refused :
      (again : Uuid)
      → (transfer_ownership user org new w).0 ≡ ok m
      → let w' = (transfer_ownership user org new w).1 in
        transfer_ownership user org again w' ≡ (err Exn.insufficient_permission, w')
  unfolding transfer_ownership get_org_and_member
  transfer_again_refused again returned =
      let done = transfer-IsNoOwner returned in
      ap then_again done.found ∙ ap (then_allowed done.member) done.no_owner
    where
      w' : World
      w' = (transfer_ownership user org new w).1

      then_again : Option OrgMember → Result OrgMember × World
      then_again o =
          ((λ _. as_member o org owner_only w') >>= (λ caller. transfer_from again caller org)) w'

      then_allowed : OrgMember → Bool → Result OrgMember × World
      then_allowed c b =
          ((λ _. if_allowed b c w') >>= (λ caller. transfer_from again caller org)) w'
