-- ===== src/Orgs/Invites/Seats.antt =====
-- An invitation counts against the seats of the subscription.
use saasmint_core.Base.{
  ℕ, suc, ◌+◌, ◌≤◌, Bool, true, false, Option, some, [], ◌∷◌, ◌≡◌, refl, subst, sym, String, count,
  arith, ==_refl, count-append,
}
use saasmint_core.Python.{Result, ok}
use saasmint_core.Domain.{User, Subscription, Org, OrgRole, Invitation}
use saasmint_core.State.{World, atomic}
use saasmint_core.State.Rules.{atomic_ok}
use saasmint_core.Orgs.Invitations.{in_org, lock_active_team_sub}
use saasmint_core.Orgs.Invites.{
  is_pending_in, has_no_seat, insert_and_send, invitation_row, invite_unless_full, invite_body,
}

module _ (inviter : User) (org : Org) (email token : String) (role : OrgRole) (w : World)
    (sub : Subscription) (r : Invitation) where
  members : ℕ
  members = count (in_org org.id) w.db.members

  pending : ℕ
  pending = count (is_pending_in org.id) w.db.invitations

  -- Members and pending invitations take at most the seats.
  abbrev Fits : World → Type 0
  Fits u =
      count (in_org org.id) u.db.members + count (is_pending_in org.id) u.db.invitations
      ≤ sub.seat_limit

  row : Invitation
  row = invitation_row w.next_draw org.id inviter.id email token role w.clock

  inserted :
      (clash : Bool)
      → suc (members + pending) ≤ sub.seat_limit
      → (insert_and_send clash inviter org row (record w { next_draw = suc w.next_draw })).0 ≡ ok r
      → Fits (insert_and_send clash inviter org row (record w { next_draw = suc w.next_draw })).1
  unfolding members pending row
  inserted true room e = cc
  inserted false room e =
      ground (
        arith,
        count-append (is_pending_in org.id) w.db.invitations (row ∷ []),
        ==_refl org.id,
        room,
      )

  fits : has_no_seat (some sub) members pending ≡ false → suc (members + pending) ≤ sub.seat_limit
  fits e = ground arith

  checked :
      (full : Bool)
      → has_no_seat (some sub) members pending ≡ full
      → (invite_unless_full full inviter org email token role w).0 ≡ ok r
      → Fits (invite_unless_full full inviter org email token role w).1
  unfolding row
  checked true e q = cc
  checked false e q = inserted _ (fits e) q

  -- An invitation that is sent leaves the org with at most as many members and pending
  -- invitations together as its active subscription, where it has one, has seats.
  pub invite_seat_cap :
      (lock_active_team_sub org.id w).0 ≡ ok (some sub)
      → (atomic (invite_body inviter org email token role) w).0 ≡ ok r
      → let w' = (atomic (invite_body inviter org email token role) w).1 in
        count (in_org org.id) w'.db.members + count (is_pending_in org.id) w'.db.invitations
        ≤ sub.seat_limit
  unfolding invite_body lock_active_team_sub members pending
  invite_seat_cap locked returned =
      let (body_returned, same) =
        atomic_ok (invite_body inviter org email token role) w r returned in
      subst Fits (sym same) (with_sub (sym (ok_inj locked)) body_returned)
    where
      ok_inj : {a b : Option Subscription} → ok a ≡ ok b → a ≡ b
      ok_inj e = cc

      invite : Option Subscription → Result Invitation × World
      invite o = invite_unless_full (has_no_seat o members pending) inviter org email token role w

      with_sub : {o : Option Subscription} → some sub ≡ o → (invite o).0 ≡ ok r → Fits (invite o).1
      with_sub {o} e =
          subst (λ (x : Option Subscription). (invite x).0 ≡ ok r → Fits (invite x).1) e
            (checked (has_no_seat (some sub) members pending) refl)
