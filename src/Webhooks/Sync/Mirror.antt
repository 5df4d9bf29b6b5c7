-- ===== src/Webhooks/Sync/Mirror.antt =====
-- What the row of a subscription says of Stripe's data, column by column.
use Prim.Native.String
use saasmint_core.Base.{◌||◌, ℕ, Option, none, some, ◌≡◌, subst, ap, ◌∙◌, String, if◌then◌else◌}
use saasmint_core.Python.{
  DateTime, Exn, Result, ok, Json, index, get, get_or, at, or_else, or_raise, raise_if, is_null,
  as_int, truthy, from_timestamp, ◌>>=◌, >>=-ok, >>=-after, ok-same,
}
use saasmint_core.Values.{to_text, to_int, ts_to_dt}
use saasmint_core.Domain.{Subscription, StripeCustomer, PlanPrice, parse_status}
use saasmint_core.State.{Env, World}
use saasmint_core.Webhooks.Read.{
  Header, Columns, Kept, make_row, read_header, read_columns, extract_period_window, read_currency,
}

module _ (env : Env) (d item : Json) where
  -- The text under a key.
  abbrev pub text_at : String → Result String
  text_at key = index d key >>= λ v. ok (to_text env v)

  -- A bound of the billing period: the item's, or else the subscription's own.
  abbrev pub bound_at : String → Result DateTime
  bound_at key = get d key >>= (λ outer.
      get_or item key outer >>= (λ v. or_raise (as_int v) Exn.type_error >>= from_timestamp))

  -- The currency of the subscription, or else of its price, or else dollars.
  abbrev pub currency_at : Result Json
  currency_at = get d "currency" >>= (λ own.
      if truthy own
      then ok own
      else index item "price"
        >>= (λ price. get price "currency" >>= (λ listed. ok (or_else listed (Json.str "usd")))))

-- The columns of the row that come from the data.
pub record IsRead (env : Env) (d item : Json) (row : Subscription) : Type 0 where
  pub first_item :
      (index d "items" >>= λ wrapper. index wrapper "data" >>= λ items. at items 0) ≡ ok item
  pub stripe_id : (text_at env d item "id" >>= λ key. ok (some key)) ≡ ok row.stripe_id
  pub status :
      (text_at env d item "status" >>= λ t. or_raise (parse_status t) Exn.value_error)
      ≡ ok row.status
  pub seat_limit :
      (get item "quantity" >>= λ q. to_int env (or_else q (Json.int 1))) ≡ ok row.seat_limit
  pub trial_ends_at : (get d "trial_end" >>= ts_to_dt env) ≡ ok row.trial_ends_at
  pub current_period_start :
      bound_at env d item "current_period_start" ≡ ok row.current_period_start
  pub current_period_end : bound_at env d item "current_period_end" ≡ ok row.current_period_end
  pub canceled_at : (get d "canceled_at" >>= ts_to_dt env) ≡ ok row.canceled_at
  pub cancel_at : (get d "cancel_at" >>= ts_to_dt env) ≡ ok row.cancel_at
  pub currency : (currency_at env d item >>= λ v. ok (env.lower (to_text env v))) ≡ ok row.currency

-- The columns that come from the customer, from the price, and from the row that was there; a new
-- row has a drawn id, no pending change, and the time as its creation time.
pub record IsOwned (customer : StripeCustomer) (price : PlanPrice) (existing : Option Subscription)
    (w : World) (row : Subscription) : Type 0 where
  pub stripe_customer_id : row.stripe_customer_id ≡ some customer.id
  pub user_id : row.user_id ≡ customer.user_id
  pub plan_id : row.plan_id ≡ price.plan_id
  pub id : row.id ≡ (elim existing [ none ↦ w.next_draw | some s ↦ s.id ])
  pub scheduled_plan_id :
      row.scheduled_plan_id ≡ (elim existing [ none ↦ none | some s ↦ s.scheduled_plan_id ])
  pub scheduled_change_at :
      row.scheduled_change_at ≡ (elim existing [ none ↦ none | some s ↦ s.scheduled_change_at ])
  pub created_at : row.created_at ≡ (elim existing [ none ↦ w.clock | some s ↦ s.created_at ])

-- The parts of a header.
pub record IsParsed (env : Env) (d : Json) (h : Header) : Type 0 where
  pub customer : text_at env d h.first_item "customer" ≡ ok h.customer
  pub price_id :
      (index h.first_item "price" >>= λ p. index p "id" >>= λ v. ok (to_text env v)) ≡ ok h.price_id
  pub first_item :
      (index d "items" >>= λ wrapper. index wrapper "data" >>= λ items. at items 0)
      ≡ ok h.first_item
  pub stripe_sub_id : text_at env d h.first_item "id" ≡ ok h.stripe_sub_id
  pub window :
      extract_period_window d h.first_item h.stripe_sub_id ≡ ok (h.period_start, h.period_end)

module _ (env : Env) (d : Json) (h : Header) where
  pub read_header-IsParsed : read_header env d ≡ ok h → IsParsed env d h
  unfolding read_header
  read_header-IsParsed e = >>=-ok (index d "customer") _ e (λ a ea e.
      >>=-ok (index d "items") _ e (λ b eb e. >>=-ok (index b "data") _ e (λ c ec e.
        >>=-ok (at c 0) _ e (λ i ei e. >>=-ok (index i "price") _ e (λ p ep e.
          >>=-ok (index p "id") _ e (λ q eq e. >>=-ok (index d "id") _ e (λ k ek e.
            >>=-ok (extract_period_window d i (to_text env k)) _ e (λ x ex e.
              subst (IsParsed env d) (ok-same e) (record {
                customer = >>=-after _ ea;
                price_id = >>=-after _ ep ∙ >>=-after _ eq;
                first_item = >>=-after _ eb ∙ (>>=-after _ ec ∙ ei);
                stripe_sub_id = >>=-after _ ek;
                window = ex;
              })))))))))

or_raise-any :
    {A : Type 0} (o : Option A) (x y : Exn) {a : A} → or_raise o x ≡ ok a → or_raise o y ≡ ok a
or_raise-any none x y e = cc
or_raise-any (some a) x y e = ap ok (ok-same e)

module _ (env : Env) (d item : Json) where
  -- The bounds of a window that was read.
  window-bounds :
      (id : String) (s t : ℕ) (start stop : DateTime)
      → extract_period_window d item id ≡ ok (s, t)
      → from_timestamp s ≡ ok start
      → from_timestamp t ≡ ok stop
      → (bound_at env d item "current_period_start" ≡ ok start)
        × (bound_at env d item "current_period_end" ≡ ok stop)
  unfolding extract_period_window
  window-bounds id s t start stop e es et = >>=-ok (get d "current_period_start") _ e (λ a ea e.
      >>=-ok (get_or item "current_period_start" a) _ e (λ b eb e.
        >>=-ok (get d "current_period_end") _ e (λ c ec e.
          >>=-ok (get_or item "current_period_end" c) _ e (λ f ef e.
            >>=-ok (raise_if (is_null b || is_null f) missing)
              (λ _. or_raise (as_int b) bad >>= (λ m. or_raise (as_int f) bad >>= (λ n. ok (m, n))))
              e
              (λ u eu e. >>=-ok (or_raise (as_int b) bad) _ e (λ m em e.
                >>=-ok (or_raise (as_int f) bad) _ e (λ n en e.
                  let same = ok-same e in
                  let first =
                    or_raise-any (as_int b) bad Exn.type_error em
                    ∙ ap (λ (p : ℕ × ℕ). ok p.0) same in
                  let second =
                    or_raise-any (as_int f) bad Exn.type_error en
                    ∙ ap (λ (p : ℕ × ℕ). ok p.1) same in
                  (
                    >>=-after _ ea ∙ (>>=-after _ eb ∙ (>>=-after _ first ∙ es)),
                    >>=-after _ ec ∙ (>>=-after _ ef ∙ (>>=-after _ second ∙ et)),
                  ))))))))
    where
      missing : Exn
      missing = Exn.webhook_data_error (String.◌++◌ "missing current_period_start/end: " id)

      bad : Exn
      bad = Exn.webhook_data_error (String.◌++◌ "non-integer current_period_start/end: " id)

  -- The currency that was read.
  currency-read :
      (currency : String)
      → read_currency env d item ≡ ok currency
      → (currency_at env d item >>= λ v. ok (env.lower (to_text env v))) ≡ ok currency
  unfolding read_currency
  currency-read currency e =
      >>=-ok (get d "currency") _ e
        (λ own eo e. >>=-ok _ _ e (λ chosen ec e. >>=-after _ (>>=-after _ eo ∙ ec) ∙ e))

-- The columns that were read, in the row that is made of them.
pub columns-IsRead :
    (env : Env) (d : Json) (h : Header) (customer : StripeCustomer) (price : PlanPrice)
    (columns : Columns) (kept : Kept)
    → read_header env d ≡ ok h
    → read_columns env d h ≡ ok columns
    → IsRead env d h.first_item (make_row h customer price columns kept)
unfolding read_columns
columns-IsRead env d h customer price columns kept eh e =
    let parts = read_header-IsParsed env d h eh in
    >>=-ok (index d "status") _ e (λ a ea e. >>=-ok _ _ e (λ status es e.
      >>=-ok (get h.first_item "quantity") _ e (λ q eq e. >>=-ok _ _ e (λ seats el e.
        >>=-ok (get d "trial_end") _ e (λ t et e. >>=-ok (ts_to_dt env t) _ e (λ trial eu e.
          >>=-ok (from_timestamp h.period_start) _ e (λ start ep e.
            >>=-ok (from_timestamp h.period_end) _ e (λ stop eq' e.
              >>=-ok (get d "canceled_at") _ e (λ c ec e.
                >>=-ok (ts_to_dt env c) _ e (λ canceled ed e.
                  >>=-ok (get d "cancel_at") _ e (λ l ef e.
                    >>=-ok (ts_to_dt env l) _ e (λ cancel eg e.
                      >>=-ok (read_currency env d h.first_item) _ e (λ currency ek e.
                        let bounds =
                          window-bounds env d h.first_item h.stripe_sub_id h.period_start
                            h.period_end start stop parts.window ep eq' in
                        subst (λ c. IsRead env d h.first_item (make_row h customer price c kept))
                          (ok-same e)
                          (record {
                            first_item = parts.first_item;
                            stripe_id = >>=-after _ parts.stripe_sub_id;
                            status = >>=-after _ (>>=-after _ ea) ∙ es;
                            seat_limit = >>=-after _ eq ∙ el;
                            trial_ends_at = >>=-after _ et ∙ eu;
                            current_period_start = bounds.0;
                            current_period_end = bounds.1;
                            canceled_at = >>=-after _ ec ∙ ed;
                            cancel_at = >>=-after _ ef ∙ eg;
                            currency = currency-read env d h.first_item currency ek;
                          }))))))))))))))
