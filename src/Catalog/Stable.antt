-- ===== src/Catalog/Stable.antt =====
-- The gate of a synchronization of the localized prices: what it does where no price moved.
use saasmint_core.Base.{
  ℕ, ◌+◌, ◌≡◌, refl, ap, sym, ◌∙◌, arith, Bool, true, false, Option, none, some, List, [], ◌∷◌, map,
  update, length, if◌then◌else◌,
}
use saasmint_core.Python.{DateTime, Json, Exn, Result, ok, err}
use saasmint_core.Domain.{LocalizedPrice}
use saasmint_core.State.{World, Db, Env, Action, pure, modify, some_or_raise, ◌>>=◌, ◌>>◌}
use saasmint_core.State.Rules.{reads, IsReadOnly, atomic_ok}
use saasmint_core.Catalog.Amounts.{Floats}
use saasmint_core.Catalog.Sync.{
  NewPrice, Work, Rates, has_row_id, bulk_create, update_amounts, update_heartbeats, apply_work,
  rates_of, work_for, sources, write_at, sync_with, sync_localized_prices,
}

-- A row without the time of its last synchronization.
abbrev pub without_time : LocalizedPrice → LocalizedPrice
without_time row = record row { synced_at = 0 }

-- The prices of the database.
abbrev pub prices_of : World → List LocalizedPrice
prices_of w = map without_time w.db.localized_prices

branch :
    (b : Bool) (x y : LocalizedPrice)
    → without_time x ≡ without_time y
    → without_time (if b then x else y) ≡ without_time y
branch true x y e = e
branch false x y e = refl

update-timeless :
    (p : LocalizedPrice → Bool) (t : DateTime) (rows : List LocalizedPrice)
    → map without_time (update p (λ row. record row { synced_at = t }) rows) ≡ map without_time rows
update-timeless p t [] = refl
update-timeless p t (x ∷ rows) =
    λ i. branch (p x) (record x { synced_at = t }) x refl i ∷ update-timeless p t rows i

heartbeats-timeless :
    (xs rows : List LocalizedPrice)
    → map without_time (update_heartbeats xs rows) ≡ map without_time rows
unfolding update_heartbeats
heartbeats-timeless [] rows = refl
heartbeats-timeless (x ∷ xs) rows =
    heartbeats-timeless xs
      (update (has_row_id x.id) (λ row. record row { synced_at = x.synced_at }) rows)
    ∙ update-timeless (has_row_id x.id) x.synced_at rows

bulk_create-returns :
    (t : DateTime) (xs : List NewPrice) (w : World) → (bulk_create t xs w).0 ≡ ok tt
unfolding bulk_create
bulk_create-returns t [] w = refl
bulk_create-returns t (x ∷ xs) w = bulk_create-returns t xs _

-- The writes after the creation.
abbrev updates : Work → Action ℕ
updates work = do
  modify (λ db. record db {
    localized_prices = update_amounts work.to_update_changed db.localized_prices;
  })
  modify (λ db. record db {
    localized_prices = update_heartbeats work.to_update_heartbeat db.localized_prices;
  })
  pure (length work.to_create + length work.to_update_changed)

updates-number :
    (work : Work) (r : Result (Unit {0})) (w : World)
    → r ≡ ok tt
    → (((λ _. (r, w)) >> updates work) w).0
      ≡ ok (length work.to_create + length work.to_update_changed)
updates-number work (ok _) w e = refl
updates-number work (err x) w e = cc

-- The number that it returns.
apply_work-number :
    (t : DateTime) (work : Work) (w : World)
    → (apply_work t work w).0 ≡ ok (length work.to_create + length work.to_update_changed)
unfolding apply_work
apply_work-number t work w =
    updates-number work (bulk_create t work.to_create w).0 (bulk_create t work.to_create w).1
      (bulk_create-returns t work.to_create w)

abbrev value : Result ℕ → ℕ
value (ok n) = n
value (err e) = 0

apply_work-zero :
    (t : DateTime) (new : List NewPrice) (changed beats : List LocalizedPrice) (w : World)
    → (apply_work t
        (record { to_create = new; to_update_changed = changed; to_update_heartbeat = beats })
        w).0
      ≡ ok 0
    → prices_of
        (apply_work t
          (record { to_create = new; to_update_changed = changed; to_update_heartbeat = beats })
          w).1
      ≡ prices_of w
unfolding apply_work bulk_create update_amounts
apply_work-zero t [] [] beats w q = heartbeats-timeless beats w.db.localized_prices
apply_work-zero t [] (x ∷ changed) beats w q = absurd (omega (arith, ap value q))
apply_work-zero t (x ∷ new) changed beats w q =
    absurd (omega (arith, ap value (sym (apply_work-number t with_new w) ∙ q)))
  where
    with_new : Work
    with_new = record {
      to_create = x ∷ new;
      to_update_changed = changed;
      to_update_heartbeat = beats;
    }

module _ (env : Env) (floats : Floats) where
  -- The writes, once the work is known.
  write_work-zero :
      (t : DateTime) (o : Option Work) (w : World)
      → ((some_or_raise o Exn.value_error >>= apply_work t) w).0 ≡ ok 0
      → prices_of ((some_or_raise o Exn.value_error >>= apply_work t) w).1 ≡ prices_of w
  write_work-zero t none w q = cc
  write_work-zero t (some work) w q =
      apply_work-zero t work.to_create work.to_update_changed work.to_update_heartbeat w q

  -- The rest of the task, once the rates are known.
  abbrev rest : Result (Option (Rates env floats)) → World → Result ℕ × World
  rest r w = elim r [ ok rates ↦ sync_with env floats rates w | err e ↦ (err e, w) ]

  rest-zero :
      (r : Result (Option (Rates env floats))) (w : World)
      → (rest r w).0 ≡ ok 0
      → prices_of (rest r w).1 ≡ prices_of w
  rest-zero (err e) w q = refl
  rest-zero (ok none) w q = refl
  rest-zero (ok (some rates)) w q =
      let (wrote, same) = atomic_ok (write_at env floats w.clock rates) w 0 q in
      ap prices_of same
      ∙ write_work-zero w.clock
          (work_for env floats w.clock rates w.db.localized_prices (sources env floats w.db)) w
          wrote

  if-IsReadOnly :
      {A : Type 0} (b : Bool) {m k : Action A}
      → IsReadOnly m
      → IsReadOnly k
      → IsReadOnly (if b then m else k)
  if-IsReadOnly true h k = h
  if-IsReadOnly false h k = k

  rates_of-IsReadOnly : (answer : Option Json) → IsReadOnly (rates_of env floats answer)
  unfolding rates_of
  rates_of-IsReadOnly none = search reads
  rates_of-IsReadOnly (some payload) = search (reads, if-IsReadOnly) depth 20

-- A synchronization that returns zero creates no row and changes no amount: the rows are as they
-- were, but for the time of their last synchronization.
pub sync_zero_timeless :
    (env : Env) (floats : Floats) (answer : Option Json) (w : World)
    → (sync_localized_prices env floats answer w).0 ≡ ok 0
    → prices_of (sync_localized_prices env floats answer w).1 ≡ prices_of w
unfolding sync_localized_prices
sync_zero_timeless env floats answer w q =
    rest-zero env floats (rates_of env floats answer w).0 (rates_of env floats answer w).1 q
    ∙ ap (λ (db : Db). map without_time db.localized_prices)
        ((rates_of-IsReadOnly env floats answer).run w)
