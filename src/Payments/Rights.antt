-- ===== src/Payments/Rights.antt =====
-- Who changes a subscription.
use saasmint_core.Base.{◌≡◌}
use saasmint_core.Domain.{Uuid}
use saasmint_core.Python.{Exn, err}
use saasmint_core.State.{World, Action}
use saasmint_core.State.Finds.{Finds}
use saasmint_core.Payments.Biller.{MayChange}
use saasmint_core.Payments.Confined.{IsConfined}
use saasmint_core.Payments.Changes.{Prepared}

module _ (w : World) where
  -- The look-ups and checks of a request.
  abbrev Any : {A : Type 0} → A → Type 0
  Any a = Unit {0}

-- A request that is refused and changes nothing, or that changes only the subscription that the
-- user may change.
pub data IsContained {A : Type 0} (u : Uuid) (w : World) (m : Action A) : Type 0 where
  refuses : (e : Exn) → m w ≡ (err e, w) → IsContained u w m
  changes :
      (p : Prepared)
      → MayChange u w p
      → IsConfined p.paid.sub.id p.paid.stripe_sub_id w (m w).1
      → IsContained u w m
