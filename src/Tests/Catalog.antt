-- ===== src/Tests/Catalog.antt =====
-- The synchronization of localized prices at concrete inputs.
use saasmint_core.Base.{
  ℕ, ◌+◌, ◌-◌, ◌*◌, ◌/◌, ◌≡◌, refl, leb, ltb, if◌then◌else◌, Option, none, some, [], ◌∷◌,
}
use saasmint_core.Python.{Json, Fields, get, lookup, ok}
use saasmint_core.Domain.{Priced, LocalizedPrice}
use saasmint_core.State.{World}
use saasmint_core.Catalog.Amounts.{Floats, round_friendly, format_amount, to_minor_units}
use saasmint_core.Catalog.Sync.{
  sync_localized_prices, rates_of, work_for, compute_new_amounts, upsert_for_price, apply_work,
  bulk_create, update_amounts, update_heartbeats,
}
use saasmint_core.Catalog.Kept.{Extends, sync_keeps_prices}
use saasmint_core.Catalog.Stable.{prices_of, sync_zero_timeless}
use saasmint_core.Tests.Data.{env, db, world}

-- The number of a JSON integer, in hundredths.
abbrev number : Json → Option ℕ
number (Json.int n) = some (n * 100)
number _ = none

-- Hundredths in the place of floats.
abbrev hundredths : Floats
hundredths = record {
  Float = ℕ;
  of_int = λ n. n * 100;
  ratio = λ a b. a * 100 / b;
  plus = λ a b. a + b;
  minus = λ a b. if leb b a then a - b else b - a;
  times = λ a b. a * b / 100;
  over = λ a b. a * 100 / b;
  abs = λ a. a;
  at_most = leb;
  less = ltb;
  truncate = λ a. some (a / 100);
  round = λ a. some ((a + 50) / 100);
  half_up = λ scale a. (a * scale + 50) / 100;
  of_json = number;
}

-- The examples of core/tests/test_services_currency.py.
round_down : round_friendly env hundredths 909 "eur" ≡ some 899
unfolding round_friendly
round_down = refl

round_up : round_friendly env hundredths 780 "gbp" ≡ some 799
unfolding round_friendly
round_up = refl

round_whole : round_friendly env hundredths 500 "eur" ≡ some 499
unfolding round_friendly
round_whole = refl

round_large : round_friendly env hundredths 14934900 "jpy" ≡ some 14930000
unfolding round_friendly
round_large = refl

round_small : round_friendly env hundredths 45400 "krw" ≡ some 45000
unfolding round_friendly
round_small = refl

-- Rates of two currencies.
abbrev answer : Json
answer = Json.obj (
    Fields.field "result" (Json.str "success") (
      Fields.field "rates"
        (Json.obj (Fields.field "eur" (Json.int 2) (Fields.field "jpy" (Json.int 150) Fields.end)))
        Fields.end))

abbrev in_euros : LocalizedPrice
in_euros = record {
  id = 30;
  price = Priced.plan_price 2;
  currency = "eur";
  amount_minor = 700;
  stripe_price_id = some "price_eur";
  synced_at = 3;
}

abbrev priced : World
priced = record world { db = record db { localized_prices = in_euros ∷ [] } }

abbrev in_yen : LocalizedPrice
in_yen = record {
  id = 40;
  price = Priced.plan_price 2;
  currency = "jpy";
  amount_minor = 1400;
  stripe_price_id = none;
  synced_at = 500;
}

abbrev synced : World
synced = record world {
  db = record db {
    localized_prices = record in_euros { amount_minor = 1799; synced_at = 500 } ∷ in_yen ∷ [];
  };
  next_draw = 41;
}

-- A row is updated and another one created.
sync_run : sync_localized_prices env hundredths (some answer) priced ≡ (ok 2, synced)
unfolding sync_localized_prices rates_of work_for compute_new_amounts upsert_for_price apply_work
    bulk_create update_amounts update_heartbeats round_friendly format_amount to_minor_units get
    lookup
sync_run = refl

sync_keeps_prices_example :
    Extends
      (in_euros ∷ [])
      (sync_localized_prices env hundredths (some answer) priced).1.db.localized_prices
sync_keeps_prices_example = sync_keeps_prices env hundredths (some answer) priced

-- A second run, at a later time.
abbrev later : World
later = record synced { clock = 900 }

nothing_moved : (sync_localized_prices env hundredths (some answer) later).0 ≡ ok 0
unfolding sync_localized_prices rates_of work_for compute_new_amounts upsert_for_price apply_work
    bulk_create update_amounts update_heartbeats round_friendly format_amount to_minor_units get
    lookup
nothing_moved = refl

sync_zero_timeless_example :
    prices_of (sync_localized_prices env hundredths (some answer) later).1 ≡ prices_of later
sync_zero_timeless_example = sync_zero_timeless env hundredths (some answer) later nothing_moved
