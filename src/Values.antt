-- ===== src/Values.antt =====
-- Conversions of dynamic values: `str`, `int`, `UUID`, and core/saasmint_core/services/_stripe_time.py.
use saasmint_core.Base.{ℕ, String, Bool, Option, none, some, if◌then◌else◌}
use saasmint_core.Python.{
  DateTime, Exn, Result, ok, err, Json, or_raise, from_timestamp, ◌>>=◌, truthy, as_int,
}
use saasmint_core.Domain.{Uuid}
use saasmint_core.State.{Env}

module _ (env : Env) where
  -- `str(v)`
  unfoldable pub to_text : Json → String
  to_text (Json.str s) = s
  to_text v = env.repr v

  -- `int(v)`
  unfoldable pub to_int : Json → Result ℕ
  to_int (Json.int n) = ok n
  to_int (Json.bool b) = ok (if b then 1 else 0)
  to_int (Json.str s) = or_raise (env.parse_int s) Exn.value_error
  to_int _ = err Exn.type_error

  -- `ts_to_dt`
  unfoldable pub ts_to_dt : Json → Result (Option DateTime)
  unfolding to_int from_timestamp
  ts_to_dt Json.null = ok none
  ts_to_dt v = do t ← to_int v; d ← from_timestamp t; ok (some d)

  -- `UUID(v)`
  unfoldable pub to_uuid : Json → Result Uuid
  to_uuid (Json.str s) = or_raise (env.parse_uuid s) Exn.value_error
  to_uuid _ = err Exn.attribute_error

  -- `UUID(v) if v else None`
  unfoldable pub to_uuid_if_set : Json → Result (Option Uuid)
  unfolding to_uuid truthy
  to_uuid_if_set v = if truthy v then (do u ← to_uuid v; ok (some u)) else ok none

-- `try: … except ValueError: return`, with `none` for the return.
abbrev pub catch_value_error : {A : Type 0} → Result A → Result (Option A)
catch_value_error (ok a) = ok (some a)
catch_value_error (err Exn.value_error) = ok none
catch_value_error (err e) = err e

-- A value that Stripe documents as a text.
unfoldable pub as_text : Json → Result String
as_text (Json.str s) = ok s
as_text _ = err Exn.type_error

-- A value that Stripe documents as a text or null.
unfoldable pub as_text_or_none : Json → Result (Option String)
as_text_or_none (Json.str s) = ok (some s)
as_text_or_none Json.null = ok none
as_text_or_none _ = err Exn.type_error

-- A value that Stripe documents as a Boolean.
unfoldable pub as_bool : Json → Result Bool
as_bool (Json.bool b) = ok b
as_bool _ = err Exn.type_error

-- A value that Stripe documents as an integer, in a comparison.
unfoldable pub as_int_value : Json → Result ℕ
unfolding as_int
as_int_value v = elim (as_int v) [ none ↦ err Exn.type_error | some n ↦ ok n ]
