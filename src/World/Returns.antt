-- ===== src/World/Returns.antt =====
-- What holds where an action returns without an error, with a rule for each way to build an action.
use mini_deploy.Prelude.{◌≡◌, refl, Bool, true, false, if◌then◌else◌}
use mini_deploy.Result.{Result, ok, err, Error}
use mini_deploy.World.{World, Io, io, continue, pure, gets, fail, lift, try, ◌>>=◌}
use mini_deploy.World.Spec.{Outcome, Runs, Outcome-continue}
use mini_deploy.World.Keeps.{Keeps}
use mini_deploy.World.Handle.{on_error, otherwise, finally}

abbrev Whatever : World → Type 0
Whatever w = Unit {0}

-- Where `m`, run in `w`, returns a value, `Q` holds of it and of the world behind it.
pub record Returns {ℓ} {A : Type ℓ} (Q : A → World → Type 0) (m : Io A) (w : World) : Type ℓ where
  pub outcome : Runs Q Whatever m w

any-Outcome {ℓ} :
    {A : Type ℓ} (r : Result A) (w : World) → Outcome {A = A} (λ a v. Unit {0}) Whatever r w
any-Outcome (ok a) w = tt
any-Outcome (err e) w = tt

of_ok {ℓ} :
    {A : Type ℓ} (Q : A → World → Type 0) (r : Result A) (w : World) (a : A)
    → Outcome Q Whatever r w
    → r ≡ ok a
    → Q a w
of_ok Q r w a h e = rw e at h

on_success {ℓ} :
    {A : Type ℓ} (Q : A → World → Type 0) (r : Result A) (w : World)
    → ((a : A) → r ≡ ok a → Q a w)
    → Outcome Q Whatever r w
on_success Q (ok a) w k = k a refl
on_success Q (err e) w k = tt

kept-Outcome {ℓ} :
    {A : Type ℓ} (Q : A → World → Type 0) (r : Result A) (w v : World)
    → Outcome Q Whatever r w
    → ((a : A) → Q a w → Q a v)
    → Outcome Q Whatever r v
kept-Outcome Q (ok a) w v h k = k a h
kept-Outcome Q (err e) w v h k = tt

fails {ℓ κ} :
    {A : Type ℓ} {B : Type κ} (r : Result B) (e : Error) (Q : A → World → Type 0) (w : World)
    → Outcome Q Whatever
        (continue r (λ _. fail {A = A} e) w).0
        (continue r (λ _. fail {A = A} e) w).1
unfolding fail
fails (ok _) e Q w = tt
fails (err _) e Q w = tt

otherwise-Outcome {ℓ} :
    {A : Type ℓ} (Q : A → World → Type 0) (r : Result A) (undo : Io (Unit {0})) (w : World)
    → Outcome Q Whatever r w
    → Runs Q Whatever (otherwise r undo) w
unfolding io
otherwise-Outcome Q (ok a) undo w h = h
otherwise-Outcome Q (err e) undo w h = fails (undo w).0 e Q (undo w).1

module _ {ℓ} {A : Type ℓ} (Q : A → World → Type 0) where
  pub returned : (m : Io A) (w : World) (a : A) → Returns Q m w → (m w).0 ≡ ok a → Q a (m w).1
  returned m w a h e = of_ok Q (m w).0 (m w).1 a h.outcome e

  pub Returns-of : (m : Io A) (w : World) → ((a : A) → (m w).0 ≡ ok a → Q a (m w).1) → Returns Q m w
  Returns-of m w k = record { outcome = on_success Q (m w).0 (m w).1 k }

  pub Returns-pure : (a : A) (w : World) → Q a w → Returns Q (pure a) w
  unfolding pure
  Returns-pure a w h = record { outcome = h }

  pub Returns-gets : (f : World → A) (w : World) → Q (f w) w → Returns Q (gets f) w
  unfolding gets
  Returns-gets f w h = record { outcome = h }

  pub Returns-lift :
      (r : Result A) (w : World) → ((a : A) → r ≡ ok a → Q a w) → Returns Q (lift r) w
  unfolding lift
  Returns-lift r w k = record { outcome = on_success Q r w k }

  pub Returns-fail : (e : Error) (w : World) → Returns Q (fail e) w
  unfolding fail
  Returns-fail e w = record { outcome = tt }

  pub Returns-if :
      (b : Bool) (m n : Io A) (w : World)
      → Returns Q m w
      → Returns Q n w
      → Returns Q (if b then m else n) w
  Returns-if true m n w h k = h
  Returns-if false m n w h k = k

  -- A test whose outcome the branches may use.
  pub Returns-if_of :
      (b : Bool) (m n : Io A) (w : World)
      → (b ≡ true → Returns Q m w)
      → (b ≡ false → Returns Q n w)
      → Returns Q (if b then m else n) w
  Returns-if_of true m n w h k = h refl
  Returns-if_of false m n w h k = k refl

  -- An error that is undone is still returned.
  pub Returns-on_error :
      (m : Io A) (undo : Io (Unit {0})) (w : World) → Returns Q m w → Returns Q (on_error m undo) w
  unfolding on_error io
  Returns-on_error m undo w h = record {
    outcome = otherwise-Outcome Q (m w).0 undo (m w).1 h.outcome;
  }

  pub Returns-finally :
      (m : Io A) (deferred : Io (Unit {0})) (w : World)
      → Returns Q m w
      → ((a : A) → Keeps (Q a) deferred)
      → Returns Q (finally m deferred) w
  unfolding finally
  Returns-finally m deferred w h k = record {
    outcome =
        kept-Outcome Q (m w).0 (m w).1 (deferred (m w).1).1 h.outcome (λ a q. (k a).at (m w).1 q);
  }

module _ {ℓ κ} {A : Type ℓ} {B : Type κ} where
  pub Returns-bind :
      (Q : A → World → Type 0) (R : B → World → Type 0) (m : Io A) (f : A → Io B) (w : World)
      → Returns Q m w
      → ((a : A) (v : World) → Q a v → Returns R (f a) v)
      → Returns R (m >>= f) w
  unfolding ◌>>=◌
  Returns-bind Q R m f w h k = record {
    outcome =
        Outcome-continue Q Whatever R Whatever f (m w).0 (m w).1 h.outcome
          (λ a v q. (k a v q).outcome) (λ v x. tt);
  }

  -- Nothing about the first action matters.
  pub Returns-then :
      (R : B → World → Type 0) (m : Io A) (f : A → Io B) (w : World)
      → ((a : A) (v : World) → Returns R (f a) v)
      → Returns R (m >>= f) w
  Returns-then R m f w k =
      Returns-bind (λ a v. Unit {0}) R m f w (record { outcome = any-Outcome (m w).0 (m w).1 })
        (λ a v q. k a v)

-- A result that was tried, for values of the lowest universe.
pub Returns-try :
    {A : Type 0} (Q : A → World → Type 0) (m : Io A) (w : World)
    → Returns Q m w
    → Returns (λ r v. (a : A) → r ≡ ok a → Q a v) (try m) w
unfolding try
Returns-try Q m w h = record { outcome = λ a e. of_ok Q (m w).0 (m w).1 a h.outcome e }
