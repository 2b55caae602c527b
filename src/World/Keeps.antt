-- ===== src/World/Keeps.antt =====
-- Invariants of actions, with a rule for each way to build an action: the invariant holds behind the
-- action whether it succeeds or fails.
use mini_deploy.Prelude.{◌≡◌, refl, Bool, true, false, List, Option, if◌then◌else◌}
use mini_deploy.Result.{Result, ok, err, Error}
use mini_deploy.World.{
  World, Host, Io, Event, Event.docker_rm, Event.docker_stop, Event.image_rm, Event.network_rm,
  continue, run, request, ask, record_event, pure, fail, lift, try, ignore, gets, modify, ◌>>=◌,
}

pub record Keeps {ℓ} {A : Type ℓ} (P : World → Type 0) (m : Io A) : Type ℓ where
  pub at : (w : World) → P w → P (m w).1

module _ {ℓ} {A : Type ℓ} {P : World → Type 0} where
  pub Keeps-pure : (a : A) → Keeps P (pure a)
  unfolding pure
  Keeps-pure a = record { at = λ w h. h }

  pub Keeps-fail : (e : Error) → Keeps P (fail {A = A} e)
  unfolding fail
  Keeps-fail e = record { at = λ w h. h }

  pub Keeps-lift : (r : Result A) → Keeps P (lift r)
  unfolding lift
  Keeps-lift r = record { at = λ w h. h }

  pub Keeps-gets : (f : World → A) → Keeps P (gets f)
  unfolding gets
  Keeps-gets f = record { at = λ w h. h }

  pub Keeps-try : (m : Io A) → Keeps P m → Keeps P (try m)
  unfolding try
  Keeps-try m k = record { at = λ w h. k.at w h }

  pub Keeps-ignore : (m : Io A) → Keeps P m → Keeps P (ignore m)
  unfolding ignore
  Keeps-ignore m k = record { at = λ w h. k.at w h }

  pub Keeps-if : (b : Bool) (m n : Io A) → Keeps P m → Keeps P n → Keeps P (if b then m else n)
  Keeps-if true m n k l = k
  Keeps-if false m n k l = l

  -- The branches may use how the test ended.
  pub Keeps-if_of :
      (b : Bool) (m n : Io A)
      → (b ≡ true → Keeps P m)
      → (b ≡ false → Keeps P n)
      → Keeps P (if b then m else n)
  Keeps-if_of true m n k l = k refl
  Keeps-if_of false m n k l = l refl

module _ {ℓ κ} {A : Type ℓ} {B : Type κ} {P : World → Type 0} where
  Keeps-continue :
      (f : A → Io B) (r : Result A) (w : World)
      → ((a : A) → Keeps P (f a))
      → P w
      → P (continue r f w).1
  Keeps-continue f (ok a) w k h = (k a).at w h
  Keeps-continue f (err e) w k h = h

  pub Keeps-bind :
      (m : Io A) (f : A → Io B) → Keeps P m → ((a : A) → Keeps P (f a)) → Keeps P (m >>= f)
  unfolding ◌>>=◌
  Keeps-bind m f k l = record { at = λ w h. Keeps-continue f (m w).0 (m w).1 l (k.at w h) }

  Keeps-continue_of :
      (f : A → Io B) (r : Result A) (w : World)
      → ((a : A) → r ≡ ok a → Keeps P (f a))
      → P w
      → P (continue r f w).1
  Keeps-continue_of f (ok a) w k h = (k a refl).at w h
  Keeps-continue_of f (err e) w k h = h

  -- The rest may use what the first action returned.
  pub Keeps-bind_of :
      (m : Io A) (f : A → Io B)
      → Keeps P m
      → ((w : World) → P w → (a : A) → (m w).0 ≡ ok a → Keeps P (f a))
      → Keeps P (m >>= f)
  unfolding ◌>>=◌
  Keeps-bind_of m f k l = record {
    at = λ w h. Keeps-continue_of f (m w).0 (m w).1 (l w h) (k.at w h);
  }

  pub Keeps-lift_of :
      (r : Result A) (f : A → Io B) → ((a : A) → r ≡ ok a → Keeps P (f a)) → Keeps P (lift r >>= f)
  unfolding ◌>>=◌ lift
  Keeps-lift_of r f k = record { at = λ w h. Keeps-continue_of f r w k h }

  -- The rest may use that the value was read where the invariant holds.
  pub Keeps-gets_of :
      (g : World → A) (f : A → Io B)
      → ((w : World) → P w → Keeps P (f (g w)))
      → Keeps P (gets g >>= f)
  unfolding ◌>>=◌ gets
  Keeps-gets_of g f k = record { at = λ w h. (k w h).at w h }

-- What every event of a kind leaves holds behind an operation of that kind.
abbrev pub Allows : (World → Type 0) → Event → Type 0
Allows P e = (w : World) → P w → P (record_event e w)

-- The events that stop or remove something of Docker's.
abbrev pub removes : Event → Bool
removes (docker_rm container) = true
removes (docker_stop container) = true
removes (image_rm image) = true
removes (network_rm network) = true
removes _ = false

-- Every other event leaves the invariant.
abbrev pub Calm : (World → Type 0) → Type 0
Calm P = (e : Event) → removes e ≡ false → Allows P e

module _ {P : World → Type 0} where
  pub Keeps-run : (e : Event) (error : Error) → Allows P e → Keeps P (run e error)
  unfolding run
  Keeps-run e error k = record { at = k }

  pub Keeps-request : (e : Event) → Allows P e → Keeps P (request e)
  unfolding request
  Keeps-request e k = record { at = k }

  pub Keeps-ask {ℓ} :
      {A : Type ℓ} (reply : Host → List Event → Event → Option A) (e : Event)
      → Allows P e
      → Keeps P (ask reply e)
  unfolding ask
  Keeps-ask reply e k = record { at = k }

  pub Keeps-modify : (f : World → World) → ((w : World) → P w → P (f w)) → Keeps P (modify f)
  unfolding modify
  Keeps-modify f k = record { at = k }

pub ruleset keeps_rules =
    (Keeps-pure, Keeps-fail, Keeps-lift, Keeps-gets, Keeps-try, Keeps-ignore, Keeps-if, Keeps-bind)

-- The action never fails.
pub record Succeeds {ℓ} {A : Type ℓ} (m : Io A) : Type ℓ where
  pub at : (w : World) → (a : A) × ((m w).0 ≡ ok a)

module _ {ℓ} {A : Type ℓ} where
  pub Succeeds-pure : (a : A) → Succeeds (pure a)
  unfolding pure
  Succeeds-pure a = record { at = λ w. (a, refl) }

  pub Succeeds-try : (m : Io A) → Succeeds (try m)
  unfolding try
  Succeeds-try m = record { at = λ w. ((m w).0, refl) }

  pub Succeeds-ignore : (m : Io A) → Succeeds (ignore m)
  unfolding ignore
  Succeeds-ignore m = record { at = λ w. (tt, refl) }

  pub Succeeds-gets : (f : World → A) → Succeeds (gets f)
  unfolding gets
  Succeeds-gets f = record { at = λ w. (f w, refl) }

  pub Succeeds-if :
      (b : Bool) (m n : Io A) → Succeeds m → Succeeds n → Succeeds (if b then m else n)
  Succeeds-if true m n k l = k
  Succeeds-if false m n k l = l

module _ {ℓ κ} {A : Type ℓ} {B : Type κ} where
  Succeeds-continue :
      (f : A → Io B) (r : Result A) (w : World) (a : A)
      → r ≡ ok a
      → Succeeds (f a)
      → (b : B) × ((continue r f w).0 ≡ ok b)
  Succeeds-continue f r w a e k = rw e (k.at w)

  pub Succeeds-bind :
      (m : Io A) (f : A → Io B) → Succeeds m → ((a : A) → Succeeds (f a)) → Succeeds (m >>= f)
  unfolding ◌>>=◌
  Succeeds-bind m f k l = record {
    at = λ w. let (a, e) = k.at w in Succeeds-continue f (m w).0 (m w).1 a e (l a);
  }

pub ruleset succeeds_rules =
    (Succeeds-pure, Succeeds-try, Succeeds-ignore, Succeeds-if, Succeeds-bind)

-- Where the action fails, the invariant holds behind it.
pub record Safe {ℓ} {A : Type ℓ} (P : World → Type 0) (m : Io A) : Type ℓ where
  pub at : (w : World) → P w → (e : Error) → (m w).0 ≡ err e → P (m w).1

module _ {ℓ} {A : Type ℓ} {P : World → Type 0} where
  pub Safe-Keeps : (m : Io A) → Keeps P m → Safe P m
  Safe-Keeps m k = record { at = λ w h e f. k.at w h }

  pub Safe-Succeeds : (m : Io A) → Succeeds m → Safe P m
  Safe-Succeeds m k = record { at = λ w h e f. let (a, g) = k.at w in cc (g, f) }

  pub Safe-if : (b : Bool) (m n : Io A) → Safe P m → Safe P n → Safe P (if b then m else n)
  Safe-if true m n k l = k
  Safe-if false m n k l = l

module _ {ℓ κ} {A : Type ℓ} {B : Type κ} {P : World → Type 0} where
  Safe-continue :
      (f : A → Io B) (r : Result A) (w : World)
      → ((a : A) → r ≡ ok a → Safe P (f a))
      → P w
      → (e : Error) → (continue r f w).0 ≡ err e
      → P (continue r f w).1
  Safe-continue f (ok a) w k h e g = (k a refl).at w h e g
  Safe-continue f (err x) w k h e g = h

  -- The rest may use what the first action returned.
  pub Safe-bind_of :
      (m : Io A) (f : A → Io B)
      → Keeps P m
      → ((w : World) → P w → (a : A) → (m w).0 ≡ ok a → Safe P (f a))
      → Safe P (m >>= f)
  unfolding ◌>>=◌
  Safe-bind_of m f k l = record { at = λ w h. Safe-continue f (m w).0 (m w).1 (l w h) (k.at w h) }

  pub Safe-bind :
      (m : Io A) (f : A → Io B) → Keeps P m → ((a : A) → Safe P (f a)) → Safe P (m >>= f)
  Safe-bind m f k l = Safe-bind_of m f k (λ w h a e. l a)

  -- The rest may use that the value was read where the invariant holds.
  pub Safe-gets :
      (g : World → A) (f : A → Io B)
      → ((w : World) → P w → Safe P (f (g w)))
      → Safe P (gets g >>= f)
  unfolding ◌>>=◌ gets
  Safe-gets g f k = record { at = λ w h. (k w h).at w h }

pub ruleset safe_rules = (Safe-Succeeds, Safe-if, Safe-bind)
