-- ===== src/Webhooks/Checkout.antt =====
-- Completed checkouts: `_on_checkout_completed` and `_on_product_checkout_completed` of
-- core/saasmint_core/services/webhooks.py. The values that are passed on are texts, as Stripe
-- documents them; another kind of value raises.
use saasmint_core.Base.{String, Bool, not, Option, none, some, if◌then◌else◌}
use saasmint_core.Python.{Json, Fields, get, get_or, truthy, or_else, is_text}
use saasmint_core.Values.{
  to_text, to_uuid, to_uuid_if_set, catch_value_error, as_text, as_text_or_none,
}
use saasmint_core.Domain.{Uuid}
use saasmint_core.State.{Env, Action, pure, lift, ◌>>=◌}
use saasmint_core.Webhooks.Sync.{OnCanceled}

-- What a completed team checkout hands on.
pub record TeamCheckout : Type 0 where
  pub user_id : Uuid
  pub org_name : String
  pub stripe_customer_id : String
  pub livemode : Bool
  pub subscription_id : Option String
  pub keep_personal_subscription : Bool

-- What a completed product checkout hands on.
pub record ProductCheckout : Type 0 where
  pub session_id : String
  pub product_id : Uuid
  pub user_id : Uuid
  pub org_id : Option Uuid

-- The callbacks of `WebhookRepos`: the interface to the code that a completed checkout or the
-- end of an org's subscription sets off.
pub record Callbacks : Type 0 where
  pub on_team_checkout_completed : Option (TeamCheckout → Action (Unit {0}))
  pub on_org_subscription_canceled : OnCanceled
  pub on_product_checkout_completed : Option (ProductCheckout → Action (Unit {0}))

abbrev pub call_back : {A : Type 0} → Option (A → Action (Unit {0})) → A → Action (Unit {0})
call_back none a = pure tt
call_back (some callback) a = callback a

abbrev pub pair_with : Uuid → Option Uuid → Option (Uuid × Uuid)
pair_with p none = none
pair_with p (some u) = some (p, u)

module _ (env : Env) (callbacks : Callbacks) where
  -- The ids have been read; `none` is a `ValueError` that was caught.
  abbrev pub grant : String → Option (Uuid × Uuid) → Option (Option Uuid) → Action (Unit {0})
  grant session none org = pure tt
  grant session (some ids) none = pure tt
  grant session (some (product, user)) (some org) =
      call_back callbacks.on_product_checkout_completed
        (record { session_id = session; product_id = product; user_id = user; org_id = org })

  -- The second of the two ids, where the first was read.
  abbrev pub read_user : Option Uuid → Json → Action (Option (Uuid × Uuid))
  read_user none client_ref = pure none
  read_user (some product) client_ref = do
    user ← lift (catch_value_error (to_uuid env client_ref))
    pure (pair_with product user)

  -- `UUID(product_ref)` and `UUID(client_ref)` in one `try`.
  abbrev pub read_ids : Json → Json → Action (Option (Uuid × Uuid))
  read_ids product_ref client_ref = do
    product ← lift (catch_value_error (to_uuid env product_ref))
    read_user product client_ref

  -- `org_ref` is read only where the two ids were.
  abbrev pub grant_to : String → Json → Option (Uuid × Uuid) → Action (Unit {0})
  grant_to session metadata none = pure tt
  grant_to session metadata (some ids) = do
    org_ref ← lift (get metadata "org_id")
    org ← lift (catch_value_error (to_uuid_if_set env org_ref))
    grant session (some ids) org

  unfoldable pub on_product_checkout_completed : Json → Action (Unit {0})
  on_product_checkout_completed session = do
    id ← lift (get session "id")
    if not (truthy id) then pure tt else (do
      found ← lift (get session "metadata")
      let metadata = or_else found (Json.obj Fields.end)
      product_ref ← lift (get metadata "product_id")
      if not (truthy product_ref) then pure tt else (do
        client_ref ← lift (get session "client_reference_id")
        if not (truthy client_ref) then pure tt else (do
          ids ← read_ids product_ref client_ref
          grant_to (to_text env id) metadata ids)))

  -- The team branch, where the metadata names an org and the session names a client.
  abbrev pub team_checkout : Json → Json → Json → Json → Action (Unit {0})
  team_checkout session metadata org_name client_ref = do
    user_id ← lift (to_uuid env client_ref)
    customer ← lift (get session "customer")
    if not (truthy customer) then pure tt else (do
      subscription ← lift (get session "subscription")
      livemode ← lift (get_or session "livemode" (Json.bool Bool.false))
      keep ← lift (get metadata "keep_personal_subscription")
      name ← lift (as_text org_name)
      subscription_id ← lift (as_text_or_none subscription)
      call_back callbacks.on_team_checkout_completed (record {
        user_id = user_id;
        org_name = name;
        stripe_customer_id = to_text env customer;
        livemode = truthy livemode;
        subscription_id = subscription_id;
        keep_personal_subscription = is_text keep "true";
      }))

  unfoldable pub on_checkout_completed : Json → Action (Unit {0})
  unfolding on_product_checkout_completed
  on_checkout_completed session = do
    mode ← lift (get session "mode")
    if is_text mode "payment" then on_product_checkout_completed session else (do
      found ← lift (get session "metadata")
      let metadata = or_else found (Json.obj Fields.end)
      org_name ← lift (get metadata "org_name")
      if not (truthy org_name) then pure tt else (do
        client_ref ← lift (get session "client_reference_id")
        if not (truthy client_ref)
            then pure tt
            else team_checkout session metadata org_name client_ref))
