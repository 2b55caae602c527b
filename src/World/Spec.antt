-- ===== src/World/Spec.antt =====
-- Outcomes of actions: what holds of the value and the world where an action succeeds, and of the
-- world where it fails; with the rule for a bind.
use mini_deploy.Result.{Result, ok, err}
use mini_deploy.World.{World, Io, continue}

abbrev pub Outcome {ℓ} :
    {A : Type ℓ} → (A → World → Type 0) → (World → Type 0) → Result A → World → Type 0
Outcome Q E (ok a) w = Q a w
Outcome Q E (err e) w = E w

-- `m`, run in `w`, has the outcome.
abbrev pub Runs {ℓ} : {A : Type ℓ} → (A → World → Type 0) → (World → Type 0) → Io A → World → Type 0
Runs Q E m w = Outcome Q E (m w).0 (m w).1

pub Outcome-continue {ℓ κ} :
    {A : Type ℓ} {B : Type κ} (Q : A → World → Type 0) (E : World → Type 0) (R : B → World → Type 0)
    (F : World → Type 0) (f : A → Io B) (r : Result A) (w : World)
    → Outcome Q E r w
    → ((a : A) (v : World) → Q a v → Runs R F (f a) v)
    → ((v : World) → E v → F v)
    → Outcome R F (continue r f w).0 (continue r f w).1
Outcome-continue Q E R F f (ok a) w h k l = k a w h
Outcome-continue Q E R F f (err e) w h k l = l w h
