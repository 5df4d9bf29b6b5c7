-- ===== src/Payments/Authority.antt =====
-- The scope of a change of a subscription, and who is let in.
use saasmint_core.Base.{
  ltb, ◌==◌, String, Bool, true, false, ◌&&◌, Option, none, some, List, [], ◌∷◌, ◌≡◌, refl, sym, ap,
  ◌∙◌, arith, any, select, str_eq, ==_refl, if◌then◌else◌,
}
use saasmint_core.Domain.{Uuid, OrgMember, PlanContext}
use saasmint_core.State.{World, pure, raise, gets}
use saasmint_core.State.Finds.{
  Finds, found, refused, >>=-Finds, pure-Finds, raise-Finds, gets-Finds,
}
use saasmint_core.Payments.Access.{
  Scope, of_user, is_billing_of, lesser, least_member, membership_of, team_of, if_billing,
  default_scope, scope_in, validate_subscription_context, require_billing_authority,
  resolve_mutation_context,
}
use saasmint_core.Payments.Prices.{invalid}

abbrev pub is_billing_in : (u o : Uuid) → OrgMember → Bool
is_billing_in u o m = m.user_id == u && (m.is_billing && m.org_id == o)

-- A scope in which the user may change a subscription: the user's own, or that of an org in which
-- the user is a billing member.
pub data IsAllowed (u : Uuid) (w : World) (s : Scope) : Type 0 where
  own : s.context ≡ PlanContext.personal → IsAllowed u w s
  billing :
      (o : Uuid)
      → s.context ≡ PlanContext.team
      → s.org_id ≡ some o
      → any (is_billing_in u o) w.db.members ≡ true
      → IsAllowed u w s

-- The member that is found is one of the list.
least-any :
    (q : OrgMember → Bool) (ms : List OrgMember) {m : OrgMember}
    → least_member ms ≡ some m
    → q m ≡ true
    → any q ms ≡ true
unfolding least_member
least-any q [] e h = cc
least-any q (x ∷ xs) {m = m} e h = go (least_member xs) e (λ p. least-any q xs {m = m} p h)
  where
    here : x ≡ m → any q (x ∷ xs) ≡ true
    here d = rw (ap q d ∙ h) refl

    there : any q xs ≡ true → any q (x ∷ xs) ≡ true
    there d = ground (arith, d)

    pick :
        (b : Bool) (t : OrgMember)
        → some (if b then t else x) ≡ some m
        → (some t ≡ some m → any q xs ≡ true)
        → any q (x ∷ xs) ≡ true
    pick true t d ih = there (ih d)
    pick false t d ih = here (cc)

    go :
        (o : Option OrgMember)
        → some (lesser x o) ≡ some m
        → (o ≡ some m → any q xs ≡ true)
        → any q (x ∷ xs) ≡ true
    go none d ih = here (cc)
    go (some t) d ih = pick (ltb t.id x.id) t d ih

any-select :
    (p q : OrgMember → Bool) (ms : List OrgMember) → any q (select p ms) ≡ any (λ m. p m && q m) ms
any-select p q [] = refl
any-select p q (x ∷ xs) = ground (arith, any-select p q xs)

any_assoc :
    (u o : Uuid) (ms : List OrgMember)
    → any (λ m. is_billing_of u m && m.org_id == o) ms ≡ any (is_billing_in u o) ms
any_assoc u o [] = refl
any_assoc u o (m ∷ ms) = ground (arith, any_assoc u o ms)

module _ (u : Uuid) (w : World) where
  abbrev pub scope_of : PlanContext → Option Uuid → Scope
  scope_of context org = record { context = context; org_id = org }

  least_billing :
      {m : OrgMember}
      → least_member (select (is_billing_of u) w.db.members) ≡ some m
      → any (is_billing_in u m.org_id) w.db.members ≡ true
  least_billing {m} e =
      sym (any_assoc u m.org_id w.db.members)
      ∙ (sym (any-select (is_billing_of u) (λ x. x.org_id == m.org_id) w.db.members)
          ∙ least-any (λ x. x.org_id == m.org_id) (select (is_billing_of u) w.db.members) e
              (==_refl m.org_id))

  least_member_billing :
      {m : OrgMember}
      → membership_of w.db u ≡ some m
      → m.is_billing ≡ true
      → any (is_billing_in u m.org_id) w.db.members ≡ true
  least_member_billing {m} e flag =
      sym (any-select (of_user u) (λ x. x.is_billing && x.org_id == m.org_id) w.db.members)
      ∙ least-any (λ x. x.is_billing && x.org_id == m.org_id) (select (of_user u) w.db.members) e
          (ground (arith, flag, ==_refl m.org_id))

  authority-Finds :
      (context : PlanContext)
      → Finds (λ org. IsAllowed u w (scope_of context org)) (require_billing_authority u context) w
  unfolding require_billing_authority
  authority-Finds PlanContext.personal = found none (own refl) refl
  authority-Finds PlanContext.team =
      >>=-Finds (gets (λ db. least_member (select (is_billing_of u) db.members))) team_of
        (gets-Finds {Q = λ o. least_member (select (is_billing_of u) w.db.members) ≡ o} _ refl) go
    where
      go :
          (o : Option OrgMember)
          → least_member (select (is_billing_of u) w.db.members) ≡ o
          → Finds (λ org. IsAllowed u w (scope_of PlanContext.team org)) (team_of o) w
      go none e = raise-Finds _
      go (some m) e = pure-Finds (some m.org_id) (billing m.org_id refl refl (least_billing e))

  if_billing-Finds :
      (b : Bool) (m : OrgMember)
      → membership_of w.db u ≡ some m
      → m.is_billing ≡ b
      → Finds (IsAllowed u w) (if_billing b m.org_id) w
  if_billing-Finds false m e flag = raise-Finds _
  if_billing-Finds true m e flag =
      pure-Finds (scope_of PlanContext.team (some m.org_id))
        (billing m.org_id refl refl (least_member_billing e flag))

  default-Finds :
      (o : Option OrgMember) → membership_of w.db u ≡ o → Finds (IsAllowed u w) (default_scope o) w
  default-Finds none e = pure-Finds (scope_of PlanContext.personal none) (own refl)
  default-Finds (some m) e = if_billing-Finds m.is_billing m e refl

  scope-Finds : (explicit : Option PlanContext) → Finds (IsAllowed u w) (scope_in u explicit) w
  scope-Finds (some context) =
      >>=-Finds (require_billing_authority u context) (λ org. pure (scope_of context org))
        (authority-Finds context) (λ org h. pure-Finds (scope_of context org) h)
  scope-Finds none =
      >>=-Finds (gets (λ db. membership_of db u)) default_scope
        (gets-Finds {Q = λ o. membership_of w.db u ≡ o} _ refl) default-Finds

  validate-Finds :
      (query : Option String) → Finds (λ _. Unit {0}) (validate_subscription_context query) w
  unfolding validate_subscription_context
  validate-Finds none = found none tt refl
  validate-Finds (some v) = go (str_eq v "") (str_eq v "team") (str_eq v "personal")
    where
      go :
          (a b c : Bool)
          → Finds
              (λ _. Unit {0})
              (if a
                then pure none
                else if b
                then pure (some PlanContext.team)
                else if c
                then pure (some PlanContext.personal)
                else raise invalid)
              w
      go true b c = found none tt refl
      go false true c = found (some PlanContext.team) tt refl
      go false false true = found (some PlanContext.personal) tt refl
      go false false false = refused _ refl

  pub mutation_context-Finds :
      (query : Option String) → Finds (IsAllowed u w) (resolve_mutation_context query u) w
  unfolding resolve_mutation_context
  mutation_context-Finds query =
      >>=-Finds (validate_subscription_context query) (scope_in u) (validate-Finds query)
        (λ explicit h. scope-Finds explicit)
