-- ===== src/Orgs/Invitations/SeatCap.antt =====
-- The seat cap holds at the commit of an acceptance.
use saasmint_core.Base.{
  ℕ, suc, ◌≤◌, Bool, true, false, Option, none, some, [], ◌∷◌, ◌++◌, ◌≡◌, refl, String, count,
  str_eq, ==_refl, count-append, arith,
}
use saasmint_core.Python.{Exn, Result, ok, err}
use saasmint_core.Domain.{
  Uuid, Subscription, User, Identity, OrgMember, OrgRole, Invitation, InvitationStatus, TokenKind,
}
use saasmint_core.State.{Env, World, Action, Task, pure, draw, enqueue, ◌>>=◌, ◌>>◌}
use saasmint_core.State.Rules.{Keeps, keeps, atomic_ok, atomic_err}
use saasmint_core.Tokens.{create_token, create_one_time_token, insert_one_time_token}
use saasmint_core.Accounts.Users.{
  insert_user, encode, encode_unless, encode_if_given, save_user, create_user,
}
use saasmint_core.Orgs.Invitations.{
  lock_active_team_sub, in_org, is_full, insert_member, set_status, join, accept_unless_full,
  accept_body, accept_invitation,
}

-- At most `n` members.
abbrev HasAtMost : Uuid → ℕ → World → Type 0
HasAtMost o n w = count (in_org o) w.db.members ≤ n

module _ (o : Uuid) (n : ℕ) where
  draw-Keeps : Keeps (HasAtMost o n) draw
  draw-Keeps = record { run = λ w h. h }

  enqueue-Keeps : (t : Task) → Keeps (HasAtMost o n) (enqueue t)
  enqueue-Keeps t = record { run = λ w h. h }

  insert_user-Keeps : (taken : Bool) (user : User) → Keeps (HasAtMost o n) (insert_user taken user)
  insert_user-Keeps true user = record { run = λ w h. h }
  insert_user-Keeps false user = record { run = λ w h. h }

  encode-Keeps : (env : Env) (raw : String) → Keeps (HasAtMost o n) (encode env raw)
  unfolding encode
  encode-Keeps env raw = record { run = λ w h. h }

  encode_unless-Keeps :
      (env : Env) (absent : Bool) (raw : String)
      → Keeps (HasAtMost o n) (encode_unless env absent raw)
  encode_unless-Keeps env true raw = search keeps
  encode_unless-Keeps env false raw = search (keeps, encode-Keeps)

  encode_if_given-Keeps :
      (env : Env) (password : Option String) → Keeps (HasAtMost o n) (encode_if_given env password)
  encode_if_given-Keeps env none = search keeps
  encode_if_given-Keeps env (some raw) = encode_unless-Keeps env (str_eq raw "") raw

  save_user-Keeps :
      (env : Env) (is_empty : Bool) (email full_name : String) (password : Option String)
      (is_verified : Bool)
      → Keeps (HasAtMost o n) (save_user env is_empty email full_name password is_verified)
  save_user-Keeps env true email full_name password is_verified = search keeps
  save_user-Keeps env false email full_name password is_verified =
      search (keeps, draw-Keeps, encode_if_given-Keeps, insert_user-Keeps)

  create_user-Keeps :
      (env : Env) (email full_name : String) (password : Option String) (is_verified : Bool)
      → Keeps (HasAtMost o n) (create_user env email full_name password is_verified)
  unfolding create_user
  create_user-Keeps env email full_name password is_verified =
      save_user-Keeps env (str_eq email "") email full_name password is_verified

  set_status-Keeps :
      (i : Uuid) (status : InvitationStatus) → Keeps (HasAtMost o n) (set_status i status)
  unfolding set_status
  set_status-Keeps i status = record { run = λ w h. h }

  insert_token-Keeps :
      (clash : Bool) (env : Env) (kind : TokenKind) (link : Option Identity) (user : Uuid)
      (raw : String)
      → Keeps (HasAtMost o n) (insert_one_time_token clash env kind link user raw)
  insert_token-Keeps true env kind link user raw = record { run = λ w h. h }
  insert_token-Keeps false env kind link user raw = record { run = λ w h. h }

  token-Keeps :
      (env : Env) (kind : TokenKind) (user : Uuid)
      → Keeps (HasAtMost o n) (create_one_time_token env kind user)
  unfolding create_one_time_token create_token
  token-Keeps env kind user = search (keeps, draw-Keeps, insert_token-Keeps)

module _ (env : Env) (invitation : Invitation) where
  abbrev org : Uuid
  org = invitation.org_id

  -- What a join does after the new member.
  abbrev finish : User → Action (User × Uuid)
  finish user = do
    set_status invitation.id InvitationStatus.accepted
    token ← create_one_time_token env TokenKind.email_verification user.id
    enqueue (Task.send_verification_email user.email token)
    pure (user, org)

  finish-Keeps : (n : ℕ) (user : User) → Keeps (HasAtMost org n) (finish user)
  finish-Keeps n user = search (keeps, set_status-Keeps, token-Keeps, enqueue-Keeps) depth 20

  -- A join adds one member.
  join-members :
      (n : ℕ) (user : User) (w : World)
      → HasAtMost org n w
      → HasAtMost org (suc n) (join env invitation user w).1
  unfolding join
  join-members n user w h = go invitation.role
    where
      i : Uuid
      i = w.next_draw

      u : World
      u = record w { next_draw = suc w.next_draw }

      one_more :
          (role : OrgRole)
          → count (in_org org) (
              w.db.members
              ++ record { id = i; org_id = org; user_id = user.id; role = role; is_billing = false }
                ∷ [])
            ≤ suc n
      one_more role =
          let m : OrgMember = record {
            id = i;
            org_id = org;
            user_id = user.id;
            role = role;
            is_billing = false;
          } in
          ground (arith, count-append (in_org org) w.db.members (m ∷ []), ==_refl org, h)

      go :
          (role : OrgRole)
          → HasAtMost org (suc n) ((insert_member role i org user.id >> finish user) u).1
      go OrgRole.owner = omega (arith, h)
      go OrgRole.admin = (finish-Keeps (suc n) user).run _ (one_more OrgRole.admin)
      go OrgRole.member = (finish-Keeps (suc n) user).run _ (one_more OrgRole.member)

  then_join :
      (n : ℕ) (r : Result User) (u : World)
      → HasAtMost org n u
      → HasAtMost org (suc n) (((λ _. (r, u)) >>= join env invitation) u).1
  then_join n (ok user) u h = join-members n user u h
  then_join n (err e) u h = omega (arith, h)

  fits : (sub : Subscription) (n : ℕ) → is_full (some sub) n ≡ false → suc n ≤ sub.seat_limit
  fits sub n e = ground arith

  accept_body-members :
      (full_name : String) (w : World) (sub : Subscription) (r : User × Uuid)
      → (lock_active_team_sub org w).0 ≡ ok (some sub)
      → (accept_body env invitation full_name w).0 ≡ ok r
      → HasAtMost org sub.seat_limit (accept_body env invitation full_name w).1
  unfolding accept_body lock_active_team_sub
  accept_body-members full_name w sub r locked = rw (ok_inj locked) (go (is_full (some sub) n) refl)
    where
      n : ℕ
      n = count (in_org org) w.db.members

      ok_inj : {a b : Option Subscription} → ok a ≡ ok b → a ≡ b
      ok_inj e = cc

      go :
          (full : Bool)
          → is_full (some sub) n ≡ full
          → (accept_unless_full env full invitation full_name w).0 ≡ ok r
          → HasAtMost org sub.seat_limit (accept_unless_full env full invitation full_name w).1
      go true e q = cc
      go false e q =
          let created = create_user env invitation.email full_name none false w in
          omega (
            arith,
            fits sub n e,
            then_join n created.0 created.1 (
                (create_user-Keeps org n env invitation.email full_name none false).run w
                  (omega arith)),
          )

  -- An acceptance that returns leaves the org of the invitation with at most as many members as
  -- its active subscription, where it has one, has seats.
  pub accept_seat_cap :
      (full_name : String) (w : World) (sub : Subscription) (r : User × Uuid)
      → (lock_active_team_sub org w).0 ≡ ok (some sub)
      → (accept_invitation env invitation full_name w).0 ≡ ok r
      → count (in_org org) (accept_invitation env invitation full_name w).1.db.members
        ≤ sub.seat_limit
  unfolding accept_invitation
  accept_seat_cap full_name w sub r locked accepted =
      let (returned, same) = atomic_ok (accept_body env invitation full_name) w r accepted in
      rw same (accept_body-members full_name w sub r locked returned)

  -- An acceptance that raises, at whatever step, leaves the database and the queue as they were.
  pub accept_err_unchanged :
      (full_name : String) (w : World) (e : Exn)
      → (accept_invitation env invitation full_name w).0 ≡ err e
      → ((accept_invitation env invitation full_name w).1.db ≡ w.db)
        × ((accept_invitation env invitation full_name w).1.queue ≡ w.queue)
  unfolding accept_invitation
  accept_err_unchanged full_name w e raised =
      atomic_err (accept_body env invitation full_name) w e raised
