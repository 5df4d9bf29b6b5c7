-- ===== src/Catalog/Kept.antt =====
-- The rows that a synchronization of the localized prices keeps.
use saasmint_core.Base.{
  Bool, true, false, Option, none, some, ◌≡◌, refl, sym, subst, inl, inr, ◌∙◌, List, [], ◌∷◌, ◌++◌,
  All, update, if◌then◌else◌,
}
use saasmint_core.Python.{DateTime, Json, Exn, Result-cases}
use saasmint_core.Domain.{LocalizedPrice}
use saasmint_core.State.{World, Env, Action, modify, draw, some_or_raise, atomic}
use saasmint_core.State.Rules.{
  Keeps, keeps, >>=-Keeps, now-Keeps, gets-Keeps, atomic_ok, atomic_err,
}
use saasmint_core.Catalog.Amounts.{Floats}
use saasmint_core.Catalog.Sync.{
  NewPrice, Work, Rates, has_row_id, bulk_create, update_amounts, update_heartbeats, apply_work,
  rates_of, write_at, sync_with, sync_localized_prices,
}

-- The columns that identify a row, and its Stripe price.
pub IsSame : LocalizedPrice → LocalizedPrice → Type 0
IsSame x y =
    (y.id ≡ x.id)
    × (y.price ≡ x.price)
    × (y.currency ≡ x.currency)
    × (y.stripe_price_id ≡ x.stripe_price_id)

-- The rows are still there, in place, and those behind them have no Stripe price.
pub Extends : List LocalizedPrice → List LocalizedPrice → Type 0
Extends [] rows = All (λ (y : LocalizedPrice). y.stripe_price_id ≡ none) rows
Extends (x ∷ xs) [] = ⊥
Extends (x ∷ xs) (y ∷ ys) = IsSame x y × Extends xs ys

Extends-refl : (xs : List LocalizedPrice) → Extends xs xs
unfolding Extends IsSame
Extends-refl [] = tt
Extends-refl (x ∷ xs) = ((refl, refl, refl, refl), Extends-refl xs)

Extends-append :
    (xs rows : List LocalizedPrice) (y : LocalizedPrice)
    → y.stripe_price_id ≡ none
    → Extends xs rows
    → Extends xs (rows ++ y ∷ [])
unfolding Extends
Extends-append [] [] y free h = (free, tt)
Extends-append [] (z ∷ rows) y free h = (h.0, Extends-append [] rows y free h.1)
Extends-append (x ∷ xs) [] y free h = absurd h
Extends-append (x ∷ xs) (z ∷ rows) y free h = (h.0, Extends-append xs rows y free h.1)

-- What holds of both branches.
either : {A : Type 0} (P : A → Type 0) (b : Bool) {x y : A} → P x → P y → P (if b then x else y)
either P true h k = h
either P false h k = k

module _ (p : LocalizedPrice → Bool) (f : LocalizedPrice → LocalizedPrice)
    (keep : (x y : LocalizedPrice) → IsSame x y → IsSame x (f y))
    (free : (y : LocalizedPrice) → (f y).stripe_price_id ≡ y.stripe_price_id) where
  Extends-update : (xs rows : List LocalizedPrice) → Extends xs rows → Extends xs (update p f rows)
  unfolding Extends
  Extends-update [] [] h = tt
  Extends-update [] (y ∷ rows) h = (
    either (λ (z : LocalizedPrice). z.stripe_price_id ≡ none) (p y) (free y ∙ h.0) h.0,
    Extends-update [] rows h.1,
  )
  Extends-update (x ∷ xs) [] h = absurd h
  Extends-update (x ∷ xs) (y ∷ rows) h =
      (either (IsSame x) (p y) (keep x y h.0) h.0, Extends-update xs rows h.1)

update_amounts-Extends :
    (xs new rows : List LocalizedPrice) → Extends xs rows → Extends xs (update_amounts new rows)
unfolding update_amounts IsSame
update_amounts-Extends xs [] rows h = h
update_amounts-Extends xs (x ∷ new) rows h = update_amounts-Extends xs new _ (
    Extends-update (has_row_id x.id)
      (λ row. record row { amount_minor = x.amount_minor; synced_at = x.synced_at })
      (λ a b same. same) (λ y. refl) xs rows h)

update_heartbeats-Extends :
    (xs new rows : List LocalizedPrice) → Extends xs rows → Extends xs (update_heartbeats new rows)
unfolding update_heartbeats IsSame
update_heartbeats-Extends xs [] rows h = h
update_heartbeats-Extends xs (x ∷ new) rows h = update_heartbeats-Extends xs new _ (
    Extends-update (has_row_id x.id) (λ row. record row { synced_at = x.synced_at })
      (λ a b same. same) (λ y. refl) xs rows h)

-- The rows of the database.
Holds : List LocalizedPrice → World → Type 0
Holds xs w = Extends xs w.db.localized_prices

module _ (xs : List LocalizedPrice) where
  modify-Keeps :
      (f : List LocalizedPrice → List LocalizedPrice)
      → ((rows : List LocalizedPrice) → Extends xs rows → Extends xs (f rows))
      → Keeps (Holds xs) (modify (λ db. record db { localized_prices = f db.localized_prices }))
  unfolding Holds
  modify-Keeps f k = record { run = λ w h. k w.db.localized_prices h }

  draw-Keeps : Keeps (Holds xs) draw
  unfolding Holds
  draw-Keeps = record { run = λ w h. h }

  some_or_raise-Keeps : {A : Type 0} (o : Option A) (e : Exn) → Keeps (Holds xs) (some_or_raise o e)
  some_or_raise-Keeps none e = search keeps
  some_or_raise-Keeps (some a) e = search keeps

  bulk_create-Keeps : (t : DateTime) (new : List NewPrice) → Keeps (Holds xs) (bulk_create t new)
  unfolding bulk_create
  bulk_create-Keeps t [] = search keeps
  bulk_create-Keeps t (x ∷ new) = >>=-Keeps draw-Keeps (λ i.
      >>=-Keeps (modify-Keeps _ (λ rows. Extends-append xs rows _ refl))
        (λ _. bulk_create-Keeps t new))

  amounts-Keeps :
      (new : List LocalizedPrice)
      → Keeps
          (Holds xs)
          (modify (λ db. record db { localized_prices = update_amounts new db.localized_prices }))
  amounts-Keeps new = modify-Keeps (update_amounts new) (update_amounts-Extends xs new)

  heartbeats-Keeps :
      (new : List LocalizedPrice)
      → Keeps (Holds xs) (
          modify (λ db. record db { localized_prices = update_heartbeats new db.localized_prices }))
  heartbeats-Keeps new = modify-Keeps (update_heartbeats new) (update_heartbeats-Extends xs new)

  apply_work-Keeps : (t : DateTime) (work : Work) → Keeps (Holds xs) (apply_work t work)
  unfolding apply_work
  apply_work-Keeps t work =
      search (keeps, bulk_create-Keeps, amounts-Keeps, heartbeats-Keeps) depth 20

  atomic-Keeps : {A : Type 0} (m : Action A) → Keeps (Holds xs) m → Keeps (Holds xs) (atomic m)
  unfolding Holds
  atomic-Keeps m k = record {
    run = λ w h. elim (Result-cases (atomic m w).0) [
      | inl (a, q) ↦ subst (Holds xs) (sym (atomic_ok m w a q).1) (k.run w h)
      | inr (e, q) ↦ subst (λ db. Extends xs db.localized_prices) (sym (atomic_err m w e q).0) h
    ];
  }

module _ (env : Env) (floats : Floats) (xs : List LocalizedPrice) where
  write_at-Keeps :
      (t : DateTime) (rates : Rates env floats) → Keeps (Holds xs) (write_at env floats t rates)
  write_at-Keeps t rates =
      >>=-Keeps (gets-Keeps _)
        (λ work. >>=-Keeps (some_or_raise-Keeps xs work Exn.value_error) (apply_work-Keeps xs t))

  sync_with-Keeps :
      (rates : Option (Rates env floats)) → Keeps (Holds xs) (sync_with env floats rates)
  sync_with-Keeps none = search keeps
  sync_with-Keeps (some rates) =
      >>=-Keeps now-Keeps
        (λ t. atomic-Keeps xs (write_at env floats t rates) (write_at-Keeps t rates))

  rates_of-Keeps : (answer : Option Json) → Keeps (Holds xs) (rates_of env floats answer)
  unfolding rates_of
  rates_of-Keeps none = search keeps
  rates_of-Keeps (some payload) = search keeps depth 20

-- However a synchronization ends, every localized price is still there, in its place, with its id,
-- price, currency and Stripe price, and the rows that it created have no Stripe price.
pub sync_keeps_prices :
    (env : Env) (floats : Floats) (answer : Option Json) (w : World)
    → Extends w.db.localized_prices
        (sync_localized_prices env floats answer w).1.db.localized_prices
unfolding sync_localized_prices Holds
sync_keeps_prices env floats answer w =
    (>>=-Keeps (rates_of-Keeps env floats w.db.localized_prices answer)
        (λ rates. sync_with-Keeps env floats w.db.localized_prices rates)).run
      w (Extends-refl w.db.localized_prices)
