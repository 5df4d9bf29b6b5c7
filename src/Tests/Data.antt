-- ===== src/Tests/Data.antt =====
-- An env and a state with one row in most tables.
use Prim.Native.String
use saasmint_core.Base.{◌==◌, true, none, some, [], ◌∷◌, str_eq, arith, if◌then◌else◌}
use saasmint_core.Python.{Exn, Result, ok, err, Json, Items, Fields}
use saasmint_core.Domain.{
  Subscription, SubscriptionStatus, PlanPrice, StripeCustomer, User, RefreshToken, OneTimeToken,
  TokenKind, Owner, OrgRole, Invitation, InvitationStatus, PlanContext,
}
use saasmint_core.State.{Env, World, Db, StripeCall, Decoded}
use saasmint_core.Repositories.Subscriptions.Keys.{IsKeyed}

abbrev price_object : Json
price_object = Json.obj (
    Fields.field "id" (Json.str "price_1") (
      Fields.field "unit_amount" (Json.int 900)
        (Fields.field "currency" (Json.str "usd") Fields.end)))

abbrev pub item_object : Json
item_object = Json.obj (
    Fields.field "id" (Json.str "si_1")
      (Fields.field "price" price_object (Fields.field "quantity" (Json.int 3) Fields.end)))

-- A subscription as Stripe sends it.
abbrev pub sub_data : Json
sub_data = Json.obj (
    Fields.field "id" (Json.str "sub_1") (
      Fields.field "customer" (Json.str "cus_1") (
        Fields.field "items"
          (Json.obj (Fields.field "data" (Json.arr (Items.cons item_object Items.nil)) Fields.end))
          (Fields.field "status" (Json.str "active") (
            Fields.field "current_period_start" (Json.int 100) (
              Fields.field "current_period_end" (Json.int 200) (
                Fields.field "cancel_at" (Json.int 200)
                  (Fields.field "canceled_at" (Json.int 150) Fields.end))))))))

abbrev pub event : Json
event = Json.obj (
    Fields.field "type" (Json.str "customer.subscription.updated")
      (Fields.field "data" (Json.obj (Fields.field "object" sub_data Fields.end)) Fields.end))

abbrev customer_object : Json
customer_object =
    Json.obj
      (Fields.field "id" (Json.str "cus_2") (Fields.field "livemode" (Json.bool true) Fields.end))

abbrev answer : StripeCall → Result Json
answer (StripeCall.subscription_cancel id prorate) =
    if str_eq id "sub_gone"
    then err (Exn.invalid_request "resource_missing")
    else if str_eq id "sub_down"
    then err Exn.connection_error
    else ok sub_data
answer (StripeCall.customer_create email name locale metadata) = ok customer_object
answer _ = ok sub_data

abbrev pub env : Env
env = record {
  respond = λ calls c. answer c;
  parse_uuid = λ s. none;
  uuid_text = λ i. "uuid";
  parse_int = λ s. none;
  lower = λ s. s;
  repr = λ v. "repr";
  message = λ e. "message";
  sha256 = λ s. String.◌++◌ "digest of " s;
  token_urlsafe = λ n. if n == 40 then "raw40" else "raw";
  normalize_email = λ s. s;
  make_password = λ salt raw. String.◌++◌ "hash of " raw;
  check_password = λ raw encoded. str_eq (String.◌++◌ "hash of " raw) encoded;
  jwt_encode = λ payload. "jwt";
  jwt_decode = λ t token. Decoded.invalid_token;
}

abbrev pub customer : StripeCustomer
customer = record {
  id = 1;
  stripe_id = "cus_1";
  user_id = none;
  org_id = some 5;
  livemode = true;
  created_at = 10;
}

abbrev pub price : PlanPrice
price = record { id = 2; plan_id = 3; stripe_price_id = "price_1"; amount = 900 }

abbrev pub subscription : Subscription
subscription = record {
  id = 4;
  stripe_id = some "sub_1";
  stripe_customer_id = some 1;
  user_id = none;
  status = SubscriptionStatus.trialing;
  plan_id = 9;
  seat_limit = 2;
  trial_ends_at = none;
  current_period_start = 0;
  current_period_end = 1;
  canceled_at = none;
  cancel_at = none;
  scheduled_plan_id = none;
  scheduled_change_at = none;
  currency = "usd";
  created_at = 20;
}

abbrev pub user : User
user = record {
  id = 6;
  email = "ada@example.org";
  full_name = "Ada";
  password = some "hash of secret";
  is_verified = true;
  is_active = true;
  password_changed_at = none;
  preferred_locale = "en";
  preferred_currency = "usd";
}

abbrev refresh_token : RefreshToken
refresh_token = record {
  id = 7;
  user_id = 6;
  token_hash = "digest of old";
  expires_at = 1000;
  revoked_at = none;
}

abbrev one_time_token : OneTimeToken
one_time_token = record {
  kind = TokenKind.password_reset;
  id = 8;
  user_id = 6;
  token_hash = "digest of once";
  expires_at = 1000;
  used_at = none;
  link = none;
}

abbrev pub invitation : Invitation
invitation = record {
  id = 11;
  org_id = 5;
  email = "bob@example.org";
  role = OrgRole.member;
  token = "token";
  status = InvitationStatus.pending;
  invited_by = some 6;
  expires_at = 1000;
}

abbrev pub db : Db
db = record {
  customers = customer ∷ [];
  subscriptions = subscription ∷ [];
  plan_prices = price ∷ [];
  events =
      record {
        id = 12;
        stripe_id = "evt_1";
        type = "customer.subscription.updated";
        livemode = true;
        payload = event;
        processed_at = none;
        error = some "earlier";
      }
      ∷ [];
  products = [];
  plans = record { id = 9; name = "Team"; context = PlanContext.team; is_active = true } ∷ [];
  product_prices = [];
  localized_prices = [];
  credit_transactions =
      record {
        owner = Owner.user 6;
        amount = 30;
        reason = "purchase:Pack";
        stripe_session_id = some "cs_1";
      }
      ∷ [];
  credit_balances = record { owner = Owner.user 6; balance = 30 } ∷ [];
  orgs = record { id = 5; name = "Org"; slug = "org"; created_by = some 6 } ∷ [];
  members =
      record { id = 13; org_id = 5; user_id = 6; role = OrgRole.owner; is_billing = true } ∷ [];
  invitations = invitation ∷ [];
  users = user ∷ [];
  social_accounts = [];
  refresh_tokens = refresh_token ∷ [];
  one_time_tokens = one_time_token ∷ [];
}

abbrev pub world : World
world = record { db = db; clock = 500; next_draw = 40; stripe_calls = []; queue = []; cache = [] }

-- The one subscription has keys of its own.
pub world-IsKeyed : IsKeyed (subscription ∷ [])
world-IsKeyed = record { ids = λ i. ground arith; stripe_ids = λ k. ground arith }
