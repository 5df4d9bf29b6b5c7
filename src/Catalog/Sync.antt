-- ===== src/Catalog/Sync.antt =====
-- `sync_localized_prices` of apps/billing/tasks.py: the amounts of all prices in the other
-- currencies, recomputed from a snapshot of exchange rates.
use saasmint_core.Base.{
  ℕ, ◌+◌, ◌==◌, Bool, ◌&&◌, String, Option, none, some, List, [], ◌∷◌, ◌++◌, map, str_eq, first,
  update, length, if◌then◌else◌,
}
use saasmint_core.Python.{DateTime, Json, Fields, Exn, get, is_text}
use saasmint_core.Domain.{Uuid, Priced, PlanPrice, ProductPrice, LocalizedPrice}
use saasmint_core.State.{
  Env, Db, Action, pure, lift, gets, some_or_raise, now, draw, modify, atomic, ◌>>=◌, ◌>>◌,
}
use saasmint_core.Payments.Prices.{supported_currencies, same_priced}
use saasmint_core.Catalog.Amounts.{Floats, format_amount, round_friendly, to_minor_units}

-- A row that is not in the database yet.
pub record NewPrice : Type 0 where
  pub price : Priced
  pub currency : String
  pub amount_minor : ℕ

-- What a synchronization will write.
pub record Work : Type 0 where
  pub to_create : List NewPrice
  pub to_update_changed : List LocalizedPrice
  pub to_update_heartbeat : List LocalizedPrice

abbrev pub no_work : Work
no_work = record { to_create = []; to_update_changed = []; to_update_heartbeat = [] }

abbrev pub join_work : Work → Work → Work
join_work a b = record {
  to_create = a.to_create ++ b.to_create;
  to_update_changed = a.to_update_changed ++ b.to_update_changed;
  to_update_heartbeat = a.to_update_heartbeat ++ b.to_update_heartbeat;
}

abbrev pub put_first : DateTime → Priced → String → ℕ → Option LocalizedPrice → Work → Work
put_first t p currency new_amount none work = record work {
  to_create = record { price = p; currency = currency; amount_minor = new_amount } ∷ work.to_create;
}
put_first t p currency new_amount (some existing) work =
    if existing.amount_minor == new_amount
    then record work {
      to_update_heartbeat = record existing { synced_at = t } ∷ work.to_update_heartbeat;
    }
    else record work {
      to_update_changed =
          record existing { amount_minor = new_amount; synced_at = t } ∷ work.to_update_changed;
    }

abbrev pub is_of_price : Priced → String → LocalizedPrice → Bool
is_of_price p currency row = same_priced row.price p && str_eq row.currency currency

-- `_upsert_for_price`, for the rows that the task has read. No two rows are of one price and
-- currency, so that the first is the one.
unfoldable pub upsert_for_price : DateTime → List LocalizedPrice → Priced → List (String × ℕ) → Work
upsert_for_price t rows p [] = no_work
upsert_for_price t rows p ((currency, new_amount) ∷ rest) =
    put_first t p currency new_amount (first (is_of_price p currency) rows)
      (upsert_for_price t rows p rest)

-- `bulk_create`, which draws the ids.
unfoldable pub bulk_create : DateTime → List NewPrice → Action (Unit {0})
bulk_create t [] = pure tt
bulk_create t (x ∷ xs) = do
  i ← draw
  modify (λ db. record db {
    localized_prices =
        db.localized_prices
        ++ record {
          id = i;
          price = x.price;
          currency = x.currency;
          amount_minor = x.amount_minor;
          stripe_price_id = none;
          synced_at = t;
        }
          ∷ [];
  })
  bulk_create t xs

abbrev pub has_row_id : Uuid → LocalizedPrice → Bool
has_row_id i row = row.id == i

-- `bulk_update(xs, ["amount_minor", "synced_at"])`
unfoldable pub update_amounts : List LocalizedPrice → List LocalizedPrice → List LocalizedPrice
update_amounts [] rows = rows
update_amounts (x ∷ xs) rows = update_amounts xs (
    update (has_row_id x.id)
      (λ row. record row { amount_minor = x.amount_minor; synced_at = x.synced_at }) rows)

-- `bulk_update(xs, ["synced_at"])`
unfoldable pub update_heartbeats : List LocalizedPrice → List LocalizedPrice → List LocalizedPrice
update_heartbeats [] rows = rows
update_heartbeats (x ∷ xs) rows =
    update_heartbeats xs
      (update (has_row_id x.id) (λ row. record row { synced_at = x.synced_at }) rows)

-- The writes, and the number of rows that changed.
unfoldable pub apply_work : DateTime → Work → Action ℕ
apply_work t work = do
  bulk_create t work.to_create
  modify (λ db. record db {
    localized_prices = update_amounts work.to_update_changed db.localized_prices;
  })
  modify (λ db. record db {
    localized_prices = update_heartbeats work.to_update_heartbeat db.localized_prices;
  })
  pure (length work.to_create + length work.to_update_changed)

module _ (env : Env) (floats : Floats) where
  abbrev pub Rates : Type 0
  Rates = List (String × Floats.Float floats)

  abbrev pub with_rate : String → Option (Floats.Float floats) → Option Rates → Option Rates
  with_rate k (some x) (some rates) = some ((env.lower k, x) ∷ rates)
  with_rate k none rates = none
  with_rate k (some x) none = none

  -- `{k.lower(): float(v) for k, v in rates_raw.items()}`; `none` is a value that is no number.
  abbrev pub read_rates : Fields → Option Rates
  read_rates Fields.end = some []
  read_rates (Fields.field k v fs) = with_rate k (floats.of_json v) (read_rates fs)

  abbrev pub if_dict : Json → Option Rates
  if_dict (Json.obj fs) = read_rates fs
  if_dict _ = none

  -- The rates of an answer; `none` is one that is only logged. An answer that is `none` is an
  -- `httpx.HTTPError` or a `ValueError`.
  unfoldable pub rates_of : Option Json → Action (Option Rates)
  rates_of none = pure none
  rates_of (some payload) = do
    result ← lift (get payload "result")
    if is_text result "success"
        then (do rates ← lift (get payload "rates"); pure (if_dict rates))
        else pure none

  -- `api_rates.get(currency)`: a later key replaces an equal one.
  abbrev pub rate_for : String → Rates → Option (Floats.Float floats)
  rate_for currency [] = none
  rate_for currency ((k, x) ∷ rates) = elim (rate_for currency rates) [
    | some y ↦ some y
    | none ↦ if str_eq k currency then some x else none
  ]

  abbrev pub with_amount :
      String
      → Option (Floats.Float floats)
      → Option (List (String × ℕ))
      → Option (List (String × ℕ))
  with_amount currency (some display) (some rest) =
      some ((currency, to_minor_units env floats display currency) ∷ rest)
  with_amount currency none rest = none
  with_amount currency (some display) none = none

  abbrev pub converted :
      ℕ
      → String
      → Option (Floats.Float floats)
      → Option (List (String × ℕ))
      → Option (List (String × ℕ))
  converted amount currency none rest = rest
  converted amount currency (some rate) rest =
      with_amount currency
        (round_friendly env floats (floats.times (format_amount env floats amount "usd") rate)
          currency)
        rest

  -- `_compute_new_amounts`: a currency without a rate is left out.
  unfoldable pub compute_new_amounts : Rates → ℕ → List String → Option (List (String × ℕ))
  compute_new_amounts rates amount [] = some []
  compute_new_amounts rates amount (currency ∷ rest) =
      let others = compute_new_amounts rates amount rest in
      if str_eq currency "usd"
      then others
      else converted amount currency (rate_for currency rates) others

  abbrev pub then_work :
      DateTime
      → List LocalizedPrice
      → Priced
      → Option (List (String × ℕ))
      → Option Work
      → Option Work
  then_work t rows p (some amounts) (some rest) =
      some (join_work (upsert_for_price t rows p amounts) rest)
  then_work t rows p none rest = none
  then_work t rows p (some amounts) none = none

  -- The work for all prices, in their order.
  unfoldable pub work_for : DateTime → Rates → List LocalizedPrice → List (Priced × ℕ) → Option Work
  work_for t rates rows [] = some no_work
  work_for t rates rows ((p, amount) ∷ rest) =
      then_work t rows p (compute_new_amounts rates amount supported_currencies)
        (work_for t rates rows rest)

  -- The plans' prices, and then the products'.
  abbrev pub sources : Db → List (Priced × ℕ)
  sources db =
      map (λ (p : PlanPrice). (Priced.plan_price p.id, p.amount)) db.plan_prices
      ++ map (λ (p : ProductPrice). (Priced.product_price p.id, p.amount)) db.product_prices

  -- The body of the transaction.
  abbrev pub write_at : DateTime → Rates → Action ℕ
  write_at t rates = do
    work ← gets (λ db. work_for t rates db.localized_prices (sources db))
    work ← some_or_raise work Exn.value_error
    apply_work t work

  abbrev pub sync_with : Option Rates → Action ℕ
  sync_with none = pure 0
  sync_with (some rates) = do t ← now; atomic (write_at t rates)

  unfoldable pub sync_localized_prices : (answer : Option Json) → Action ℕ
  sync_localized_prices answer = do rates ← rates_of answer; sync_with rates
