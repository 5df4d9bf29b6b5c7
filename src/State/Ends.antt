-- ===== src/State/Ends.antt =====
-- What holds of the state where an action returns.
use saasmint_core.Base.{◌≡◌, refl}
use saasmint_core.Python.{Result, ok, err}
use saasmint_core.State.{World, Action, ◌>>=◌}
use saasmint_core.State.Rules.{Keeps}

pub record Ends {A : Type 0} (P : World → Type 0) (m : Action A) : Type 0 where
  pub run : (w : World) (a : A) → (m w).0 ≡ ok a → P (m w).1

module _ {A B : Type 0} (P : World → Type 0) (f : A → Action B) where
  -- The block after the first action.
  abbrev rest : Result A → World → Result B × World
  rest r w = elim r [ ok a ↦ f a w | err e ↦ (err e, w) ]

  rest-ends :
      (r : Result A) (w : World) (b : B)
      → ((a : A) → Ends P (f a))
      → (rest r w).0 ≡ ok b
      → P (rest r w).1
  rest-ends (ok a) w b k q = (k a).run w b q
  rest-ends (err e) w b k q = cc

  rest-kept :
      (r : Result A) (w : World) (b : B)
      → ((a : A) → r ≡ ok a → P w)
      → ((a : A) → Keeps P (f a))
      → (rest r w).0 ≡ ok b
      → P (rest r w).1
  rest-kept (ok a) w b h k q = (k a).run w (h a refl)
  rest-kept (err e) w b h k q = cc

module _ {A B : Type 0} (P : World → Type 0) (m : Action A) (f : A → Action B) where
  -- Whatever went before, what the last action ends in holds.
  pub >>=-Ends : ((a : A) → Ends P (f a)) → Ends P (m >>= f)
  >>=-Ends k = record { run = λ w b q. rest-ends P f (m w).0 (m w).1 b k q }

  -- What the first action ends in, the others keep.
  pub >>=-Ends_kept : Ends P m → ((a : A) → Keeps P (f a)) → Ends P (m >>= f)
  >>=-Ends_kept h k = record { run = λ w b q. rest-kept P f (m w).0 (m w).1 b (h.run w) k q }

-- What holds of the state where an action that starts at a certain state returns.
pub record EndsFrom {A : Type 0} (P Q : World → Type 0) (m : Action A) : Type 0 where
  pub run : (w : World) → P w → (a : A) → (m w).0 ≡ ok a → Q (m w).1

module _ {A B : Type 0} (P Q : World → Type 0) (m : Action A) (f : A → Action B) where
  from_kept :
      (r : Result A) (w : World) (b : B)
      → P w
      → ((a : A) → EndsFrom P Q (f a))
      → (rest P f r w).0 ≡ ok b
      → Q (rest P f r w).1
  from_kept (ok a) w b h k q = (k a).run w h b q
  from_kept (err e) w b h k q = cc

  -- The first action keeps what the others start from.
  pub >>=-EndsFrom : Keeps P m → ((a : A) → EndsFrom P Q (f a)) → EndsFrom P Q (m >>= f)
  >>=-EndsFrom h k = record { run = λ w p b q. from_kept (m w).0 (m w).1 b (h.run w p) k q }

  then_kept :
      (r : Result A) (w : World) (b : B)
      → ((a : A) → r ≡ ok a → Q w)
      → ((a : A) → Keeps Q (f a))
      → (rest P f r w).0 ≡ ok b
      → Q (rest P f r w).1
  then_kept (ok a) w b h k q = (k a).run w (h a refl)
  then_kept (err e) w b h k q = cc

  pub >>=-EndsFrom_kept : EndsFrom P Q m → ((a : A) → Keeps Q (f a)) → EndsFrom P Q (m >>= f)
  >>=-EndsFrom_kept h k = record { run = λ w p b q. then_kept (m w).0 (m w).1 b (h.run w p) k q }
