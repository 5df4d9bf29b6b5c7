-- ===== src/State/Rules.antt =====
-- Proof rules for actions: what they keep, and what they leave alone when they raise. The rule
-- sets let `search` prove a block from its steps.
use saasmint_core.Base.{Bool, true, false, ◌≡◌, refl, ◌∙◌, if◌then◌else◌}
use saasmint_core.Python.{Exn, Result, ok, err}
use saasmint_core.State.{World, Db, Action, pure, raise, lift, gets, now, atomic, try_except, ◌>>=◌}

-- The action keeps `P`, whether it returns or raises.
pub record Keeps {A : Type 0} (P : World → Type 0) (m : Action A) : Type 0 where
  pub run : (w : World) → P w → P (m w).1

-- The action never writes the database.
pub record IsReadOnly {A : Type 0} (m : Action A) : Type 0 where
  pub run : (w : World) → (m w).1.db ≡ w.db

-- The action leaves the database alone when it raises.
pub record IsClean {A : Type 0} (m : Action A) : Type 0 where
  pub run : (w : World) (e : Exn) → (m w).0 ≡ err e → (m w).1.db ≡ w.db

-- The action returns.
pub record IsTotal {A : Type 0} (m : Action A) : Type 0 where
  pub run : (w : World) → (a : A) × ((m w).0 ≡ ok a)

module _ {A B : Type 0} where
  -- The block after the first action.
  abbrev go_on : (A → Action B) → Result A → World → Result B × World
  go_on f r w = elim r [ ok a ↦ f a w | err e ↦ (err e, w) ]

  go_on-Keeps :
      (P : World → Type 0) (f : A → Action B) (r : Result A) (w : World)
      → ((a : A) → Keeps P (f a))
      → P w
      → P (go_on f r w).1
  go_on-Keeps P f (ok a) w h p = (h a).run w p
  go_on-Keeps P f (err e) w h p = p

  pub >>=-Keeps :
      {P : World → Type 0} {m : Action A} {f : A → Action B}
      → Keeps P m
      → ((a : A) → Keeps P (f a))
      → Keeps P (m >>= f)
  >>=-Keeps {P} {m} {f} h k = record { run = λ w p. go_on-Keeps P f (m w).0 (m w).1 k (h.run w p) }

  go_on-IsReadOnly :
      (f : A → Action B) (r : Result A) (w : World)
      → ((a : A) → IsReadOnly (f a))
      → (go_on f r w).1.db ≡ w.db
  go_on-IsReadOnly f (ok a) w h = (h a).run w
  go_on-IsReadOnly f (err e) w h = refl

  pub >>=-IsReadOnly :
      {m : Action A} {f : A → Action B}
      → IsReadOnly m
      → ((a : A) → IsReadOnly (f a))
      → IsReadOnly (m >>= f)
  >>=-IsReadOnly {m} {f} h k = record { run = λ w. go_on-IsReadOnly f (m w).0 (m w).1 k ∙ h.run w }

  go_on-IsClean :
      (f : A → Action B) (r : Result A) (w : World) (e : Exn)
      → ((a : A) → IsClean (f a))
      → (go_on f r w).0 ≡ err e
      → (go_on f r w).1.db ≡ w.db
  go_on-IsClean f (ok a) w e h q = (h a).run w e q
  go_on-IsClean f (err x) w e h q = refl

  -- What reads first and then is clean is clean.
  pub >>=-IsClean :
      {m : Action A} {f : A → Action B}
      → IsReadOnly m
      → ((a : A) → IsClean (f a))
      → IsClean (m >>= f)
  >>=-IsClean {m} {f} h k = record {
    run = λ w e q. go_on-IsClean f (m w).0 (m w).1 e k q ∙ h.run w;
  }

  go_on-last :
      (f : A → Action B) (r : Result A) (w : World) (db : Db) (e : Exn)
      → ((a : A) → IsTotal (f a))
      → ((x : Exn) → r ≡ err x → w.db ≡ db)
      → (go_on f r w).0 ≡ err e
      → (go_on f r w).1.db ≡ db
  go_on-last f (ok a) w db e total clean q = let (b, returned) = (total a).run w in cc
  go_on-last f (err x) w db e total clean q = clean x refl

  -- What is clean first and then returns is clean.
  pub >>=-IsClean_last :
      {m : Action A} {f : A → Action B} → IsClean m → ((a : A) → IsTotal (f a)) → IsClean (m >>= f)
  >>=-IsClean_last {m} {f} h k = record {
    run = λ w e q. go_on-last f (m w).0 (m w).1 w.db e k (h.run w) q;
  }

module _ {A : Type 0} where
  pub pure-Keeps : {P : World → Type 0} {a : A} → Keeps P (pure a)
  pure-Keeps = record { run = λ w p. p }

  pub raise-Keeps : {P : World → Type 0} {e : Exn} → Keeps {A = A} P (raise e)
  raise-Keeps = record { run = λ w p. p }

  pub lift-Keeps : {P : World → Type 0} {r : Result A} → Keeps P (lift r)
  lift-Keeps = record { run = λ w p. p }

  pub gets-Keeps : {P : World → Type 0} (f : Db → A) → Keeps P (gets f)
  gets-Keeps f = record { run = λ w p. p }

  pub pure-IsReadOnly : {a : A} → IsReadOnly (pure a)
  pure-IsReadOnly = record { run = λ w. refl }

  pub raise-IsReadOnly : {e : Exn} → IsReadOnly {A = A} (raise e)
  raise-IsReadOnly = record { run = λ w. refl }

  pub lift-IsReadOnly : {r : Result A} → IsReadOnly (lift r)
  lift-IsReadOnly = record { run = λ w. refl }

  pub gets-IsReadOnly : (f : Db → A) → IsReadOnly (gets f)
  gets-IsReadOnly f = record { run = λ w. refl }

  pub pure-IsTotal : {a : A} → IsTotal (pure a)
  pure-IsTotal {a} = record { run = λ w. (a, refl) }

  pub pure-IsClean : {a : A} → IsClean (pure a)
  pure-IsClean = record { run = λ w e q. refl }

  pub raise-IsClean : {e : Exn} → IsClean {A = A} (raise e)
  raise-IsClean = record { run = λ w e q. refl }

  pub lift-IsClean : {r : Result A} → IsClean (lift r)
  lift-IsClean = record { run = λ w e q. refl }

  -- Both branches of a test.
  pub if-Keeps :
      {P : World → Type 0} (b : Bool) {m k : Action A}
      → Keeps P m
      → Keeps P k
      → Keeps P (if b then m else k)
  if-Keeps true h k = h
  if-Keeps false h k = k

  pub if-IsClean :
      (b : Bool) {m k : Action A} → IsClean m → IsClean k → IsClean (if b then m else k)
  if-IsClean true h k = h
  if-IsClean false h k = k

pub now-Keeps : {P : World → Type 0} → Keeps P now
now-Keeps = record { run = λ w p. p }

pub now-IsReadOnly : IsReadOnly now
now-IsReadOnly = record { run = λ w. refl }

module _ {A : Type 0} where
  handled :
      (P : World → Type 0) (handler : Exn → Action A) (r : Result A) (w : World)
      → ((e : Exn) → Keeps P (handler e))
      → P w
      → P (try_except (λ _. (r, w)) handler w).1
  handled P handler (ok a) w h p = p
  handled P handler (err e) w h p = (h e).run w p

  pub try_except-Keeps :
      {P : World → Type 0} {m : Action A} {handler : Exn → Action A}
      → Keeps P m
      → ((e : Exn) → Keeps P (handler e))
      → Keeps P (try_except m handler)
  try_except-Keeps {P} {m} {handler} h k = record {
    run = λ w p. handled P handler (m w).0 (m w).1 k (h.run w p);
  }

pub ruleset keeps = (
  >>=-Keeps, pure-Keeps, raise-Keeps, lift-Keeps, gets-Keeps, now-Keeps, if-Keeps, try_except-Keeps,
)

pub ruleset reads = (
  >>=-IsReadOnly, pure-IsReadOnly, raise-IsReadOnly, lift-IsReadOnly, gets-IsReadOnly,
  now-IsReadOnly,
)

pub ruleset cleans = (reads, >>=-IsClean, pure-IsClean, raise-IsClean, lift-IsClean, if-IsClean)

module _ {A : Type 0} (m : Action A) (w : World) where
  -- The action of a run that is known.
  abbrev undone : Result A × World → Result A × World
  undone p = elim p.0 [
    | ok a ↦ (ok a, p.1)
    | err e ↦ (err e, record p.1 { db = w.db; queue = w.queue })
  ]

  -- A transaction that returns leaves what its body leaves.
  pub atomic_ok : (a : A) → (atomic m w).0 ≡ ok a → ((m w).0 ≡ ok a) × ((atomic m w).1 ≡ (m w).1)
  atomic_ok a = go (m w).0 (m w).1
    where
      go :
          (r : Result A) (u : World)
          → (undone (r, u)).0 ≡ ok a
          → (r ≡ ok a) × ((undone (r, u)).1 ≡ u)
      go (ok b) u h = (h, refl)
      go (err e) u h = cc

  -- A transaction that raises leaves the database and the queue as they were.
  pub atomic_err :
      (e : Exn)
      → (atomic m w).0 ≡ err e
      → ((atomic m w).1.db ≡ w.db) × ((atomic m w).1.queue ≡ w.queue)
  atomic_err e = go (m w).0 (m w).1
    where
      go :
          (r : Result A) (u : World)
          → (undone (r, u)).0 ≡ err e
          → ((undone (r, u)).1.db ≡ w.db) × ((undone (r, u)).1.queue ≡ w.queue)
      go (ok b) u h = cc
      go (err x) u h = (refl, refl)
