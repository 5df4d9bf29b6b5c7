-- ===== src/Tests/Members.antt =====
-- The theorems on the creation of orgs, on transfers and on invitations, at small orgs.
use saasmint_core.Base.{◌+◌, ◌≤◌, true, false, some, [], ◌∷◌, ◌≡◌, refl, String, count}
use saasmint_core.Python.{Exn, ok, err}
use saasmint_core.Domain.{Org, OrgMember, OrgRole, Invitation}
use saasmint_core.State.{World, atomic}
use saasmint_core.Orgs.Slugs.{contains, keep_allowed, strip_left, strip_right, base_of, free_slug}
use saasmint_core.Orgs.Slugs.Free.{free_slug_found}
use saasmint_core.Orgs.Creation.{org_row, owner_row, create_org_with_owner}
use saasmint_core.Orgs.Creation.Redelivery.{created_once}
use saasmint_core.Orgs.Access.{
  get_org_and_member, save_member, new_owner, hand_over, transfer_ownership,
}
use saasmint_core.Orgs.Access.Transfer.{transfer_again_refused}
use saasmint_core.Orgs.Invitations.{in_org, least, lock_active_team_sub}
use saasmint_core.Orgs.Invites.{is_pending_in, invitation_row, invite_body}
use saasmint_core.Orgs.Invites.Seats.{invite_seat_cap}
use saasmint_core.Tests.Data.{user, subscription, db, world}

abbrev slugify : String → String
slugify s = "-team!"

-- No org yet.
abbrev empty : World
empty = record world { db = record db { orgs = []; members = []; customers = [] } }

abbrev made : Org × OrgMember
made = (org_row 40 "Team" "team" 6, owner_row 41 40 6)

created : (create_org_with_owner slugify 6 "Team" (some "cus_9") true empty).0 ≡ ok made
unfolding create_org_with_owner base_of keep_allowed strip_left strip_right free_slug
created = refl

created_once_example :
    let w' = (create_org_with_owner slugify 6 "Team" (some "cus_9") true empty).1 in
    create_org_with_owner slugify 6 "Other" (some "cus_9") true w' ≡ (ok made, w')
created_once_example =
    created_once slugify 6 "cus_9" empty made "Team" "Other" true true refl refl created

abbrev admin : OrgMember
admin = record { id = 14; org_id = 5; user_id = 7; role = OrgRole.admin; is_billing = false }

abbrev with_admin : World
with_admin = record world {
  db = record db {
    members =
        record { id = 13; org_id = 5; user_id = 6; role = OrgRole.owner; is_billing = true }
        ∷ admin
        ∷ [];
  };
}

transferred : (transfer_ownership 6 5 7 with_admin).0 ≡ ok (new_owner admin)
unfolding transfer_ownership get_org_and_member hand_over save_member
transferred = refl

transfer_again_refused_example :
    let w' = (transfer_ownership 6 5 7 with_admin).1 in
    transfer_ownership 6 5 7 w' ≡ (err Exn.insufficient_permission, w')
transfer_again_refused_example =
    transfer_again_refused 6 5 7 with_admin (new_owner admin) 7 transferred

-- Two seats, one of them taken.
abbrev roomy : World
roomy = record world { db = record db { invitations = [] } }

abbrev org : Org
org = record { id = 5; name = "Org"; slug = "org"; created_by = some 6 }

locked : (lock_active_team_sub 5 roomy).0 ≡ ok (some subscription)
unfolding lock_active_team_sub least
locked = refl

abbrev sent : Invitation
sent = invitation_row 40 5 6 "bob@example.org" "token" OrgRole.member 500

invited : (atomic (invite_body user org "bob@example.org" "token" OrgRole.member) roomy).0 ≡ ok sent
unfolding invite_body lock_active_team_sub least
invited = refl

invite_seat_cap_example :
    let w' = (atomic (invite_body user org "bob@example.org" "token" OrgRole.member) roomy).1 in
    count (in_org 5) w'.db.members + count (is_pending_in 5) w'.db.invitations ≤ 2
invite_seat_cap_example =
    invite_seat_cap user org "bob@example.org" "token" OrgRole.member roomy subscription sent locked
      invited

free_slug_found_example :
    (slug : String) × (free_slug "team" ("team" ∷ "team-2" ∷ []) ≡ some slug)
    × (contains slug ("team" ∷ "team-2" ∷ []) ≡ false)
free_slug_found_example = free_slug_found "team" ("team" ∷ "team-2" ∷ [])
