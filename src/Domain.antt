-- ===== src/Domain.antt =====
-- The entities: core/saasmint_core/domain and the model classes of apps/billing, apps/orgs and
-- apps/users, with the columns that the modelled code reads or writes. A UUID is a number.
use saasmint_core.Base.{ℕ, String, Bool, true, false, Option, none, some, str_eq, if◌then◌else◌}
use saasmint_core.Python.{DateTime}

abbrev pub Uuid : Type 0
Uuid = ℕ

pub data SubscriptionStatus : Type 0 where
  active trialing past_due canceled incomplete incomplete_expired paused unpaid : SubscriptionStatus

-- Membership in `ACTIVE_SUBSCRIPTION_STATUSES`.
abbrev pub is_active_status : SubscriptionStatus → Bool
is_active_status SubscriptionStatus.active = true
is_active_status SubscriptionStatus.trialing = true
is_active_status SubscriptionStatus.past_due = true
is_active_status _ = false

-- `SubscriptionStatus(value)`; `none` is its `ValueError`.
unfoldable pub parse_status : String → Option SubscriptionStatus
parse_status s =
    if str_eq s "active"
    then some SubscriptionStatus.active
    else if str_eq s "trialing"
    then some SubscriptionStatus.trialing
    else if str_eq s "past_due"
    then some SubscriptionStatus.past_due
    else if str_eq s "canceled"
    then some SubscriptionStatus.canceled
    else if str_eq s "incomplete"
    then some SubscriptionStatus.incomplete
    else if str_eq s "incomplete_expired"
    then some SubscriptionStatus.incomplete_expired
    else if str_eq s "paused"
    then some SubscriptionStatus.paused
    else if str_eq s "unpaid"
    then some SubscriptionStatus.unpaid
    else none

pub record Subscription : Type 0 where
  pub id : Uuid
  pub stripe_id : Option String
  pub stripe_customer_id : Option Uuid
  pub user_id : Option Uuid
  pub status : SubscriptionStatus
  pub plan_id : Uuid
  pub seat_limit : ℕ
  pub trial_ends_at : Option DateTime
  pub current_period_start : DateTime
  pub current_period_end : DateTime
  pub canceled_at : Option DateTime
  pub cancel_at : Option DateTime
  pub scheduled_plan_id : Option Uuid
  pub scheduled_change_at : Option DateTime
  pub currency : String
  pub created_at : DateTime

pub data PlanContext : Type 0 where
  personal team : PlanContext

pub record Plan : Type 0 where
  pub id : Uuid
  pub name : String
  pub context : PlanContext
  pub is_active : Bool

pub record PlanPrice : Type 0 where
  pub id : Uuid
  pub plan_id : Uuid
  pub stripe_price_id : String
  pub amount : ℕ

pub record StripeCustomer : Type 0 where
  pub id : Uuid
  pub stripe_id : String
  pub user_id : Option Uuid
  pub org_id : Option Uuid
  pub livemode : Bool
  pub created_at : DateTime

pub record Product : Type 0 where
  pub id : Uuid
  pub name : String
  pub credits : ℕ
  pub is_active : Bool

pub record ProductPrice : Type 0 where
  pub id : Uuid
  pub product_id : Uuid
  pub stripe_price_id : String
  pub amount : ℕ

-- The price of a plan or of a product in a currency: exactly one of the two.
pub data Priced : Type 0 where
  plan_price product_price : Uuid → Priced

pub record LocalizedPrice : Type 0 where
  pub id : Uuid
  pub price : Priced
  pub currency : String
  pub amount_minor : ℕ
  pub stripe_price_id : Option String
  pub synced_at : DateTime

-- The owner of credits: exactly one of a user and an org.
pub data Owner : Type 0 where
  user org : Uuid → Owner

pub record CreditTransaction : Type 0 where
  pub owner : Owner
  pub amount : ℕ
  pub reason : String
  pub stripe_session_id : Option String

pub record CreditBalance : Type 0 where
  pub owner : Owner
  pub balance : ℕ

pub data OrgRole : Type 0 where
  owner admin member : OrgRole

pub record Org : Type 0 where
  pub id : Uuid
  pub name : String
  pub slug : String
  pub created_by : Option Uuid

pub record OrgMember : Type 0 where
  pub id : Uuid
  pub org_id : Uuid
  pub user_id : Uuid
  pub role : OrgRole
  pub is_billing : Bool

pub data InvitationStatus : Type 0 where
  pending accepted expired cancelled declined : InvitationStatus

pub record Invitation : Type 0 where
  pub id : Uuid
  pub org_id : Uuid
  pub email : String
  pub role : OrgRole
  pub token : String
  pub status : InvitationStatus
  pub invited_by : Option Uuid
  pub expires_at : DateTime

pub record User : Type 0 where
  pub id : Uuid
  pub email : String
  pub full_name : String
  -- the encoded hash; `none` is an unusable password
  pub password : Option String
  pub is_verified : Bool
  pub is_active : Bool
  pub password_changed_at : Option DateTime
  pub preferred_locale : String
  pub preferred_currency : String

pub record RefreshToken : Type 0 where
  pub id : Uuid
  pub user_id : Uuid
  pub token_hash : String
  pub expires_at : DateTime
  pub revoked_at : Option DateTime

-- The tables of one-time tokens; each has rows of its own.
pub data TokenKind : Type 0 where
  email_verification password_reset social_link : TokenKind

-- An account at an OAuth provider.
pub record Identity : Type 0 where
  pub provider : String
  pub provider_user_id : String

pub record SocialAccount : Type 0 where
  pub id : Uuid
  pub user_id : Uuid
  pub identity : Identity

pub record OneTimeToken : Type 0 where
  pub kind : TokenKind
  pub id : Uuid
  pub user_id : Uuid
  pub token_hash : String
  pub expires_at : DateTime
  pub used_at : Option DateTime
  -- the provider's account, in a social link request
  pub link : Option Identity

abbrev pub same_kind : TokenKind → TokenKind → Bool
same_kind TokenKind.email_verification TokenKind.email_verification = true
same_kind TokenKind.password_reset TokenKind.password_reset = true
same_kind TokenKind.social_link TokenKind.social_link = true
same_kind _ _ = false
