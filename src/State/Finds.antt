-- ===== src/State/Finds.antt =====
-- Actions that only look: they find something, or refuse, and change nothing.
use saasmint_core.Base.{◌≡◌, refl, ap, ◌∙◌}
use saasmint_core.Python.{Exn, Result, ok, err}
use saasmint_core.State.{World, Db, Action, pure, raise, gets, ◌>>=◌}

-- The run of `m` at a state: a value that satisfies `Q`, or an exception; the state stays.
pub data Finds {A : Type 0} (Q : A → Type 0) (m : Action A) (w : World) : Type 0 where
  found : (a : A) → Q a → m w ≡ (ok a, w) → Finds Q m w
  refused : (e : Exn) → m w ≡ (err e, w) → Finds Q m w

-- The run of `m` is that of the rest from a value that satisfies `Q`, or it is refused and
-- changes nothing.
pub data Acts {P A : Type 0} (Q : P → Type 0) (rest : P → Action A) (m : Action A) (w : World)
    : Type 0 where
  acts : (p : P) → Q p → m w ≡ rest p w → Acts Q rest m w
  stays : (e : Exn) → m w ≡ (err e, w) → Acts Q rest m w

then_run : {A B : Type 0} → (A → Action B) → Result A × World → Result B × World
then_run f p = elim p.0 [ ok a ↦ f a p.1 | err e ↦ (err e, p.1) ]

-- A block whose first action returns is the rest of it.
pub >>=-returned :
    {A B : Type 0} (m : Action A) (f : A → Action B) (w : World) (a : A)
    → (m w).0 ≡ ok a
    → (m >>= f) w ≡ f a (m w).1
unfolding then_run
>>=-returned m f w a e = λ i. then_run f (e i, (m w).1)

module _ {A B : Type 0} {w : World} where
  found_then :
      {R : B → Type 0} (m : Action A) (f : A → Action B) (a : A)
      → m w ≡ (ok a, w)
      → Finds R (f a) w
      → Finds R (m >>= f) w
  unfolding then_run
  found_then m f a e (found b r d) = found b r (ap (then_run f) e ∙ d)
  found_then m f a e (refused x d) = refused x (ap (then_run f) e ∙ d)

  pub >>=-Finds :
      {Q : A → Type 0} {R : B → Type 0} (m : Action A) (f : A → Action B)
      → Finds Q m w
      → ((a : A) → Q a → Finds R (f a) w)
      → Finds R (m >>= f) w
  unfolding then_run
  >>=-Finds m f (found a q e) k = found_then m f a e (k a q)
  >>=-Finds m f (refused x e) k = refused x (ap (then_run f) e)

  pub >>=-Acts :
      {Q : A → Type 0} (m : Action A) (f : A → Action B) → Finds Q m w → Acts Q f (m >>= f) w
  unfolding then_run
  >>=-Acts m f (found a q e) = acts a q (ap (then_run f) e)
  >>=-Acts m f (refused x e) = stays x (ap (then_run f) e)

module _ {A : Type 0} {w : World} {Q : A → Type 0} where
  pub pure-Finds : (a : A) → Q a → Finds Q (pure a) w
  pure-Finds a q = found a q refl

  pub raise-Finds : (e : Exn) → Finds Q (raise e) w
  raise-Finds e = refused e refl

  pub gets-Finds : (f : Db → A) → Q (f w.db) → Finds Q (gets f) w
  gets-Finds f q = found (f w.db) q refl
