-- ===== src/World/Handle.antt =====
-- What app/*.go does with an error: undo and return it, log it, or run a deferred call.
use mini_deploy.Result.{Result, ok, err}
use mini_deploy.World.{Io, pure, fail, try, ◌>>=◌, ◌>>◌}

abbrev pub otherwise {ℓ} : {A : Type ℓ} → Result A → Io (Unit {0}) → Io A
otherwise (ok a) undo = pure a
otherwise (err e) undo = undo >> fail e

-- Runs `undo` before an error is returned.
unfoldable pub on_error {ℓ} : {A : Type ℓ} → Io A → Io (Unit {0}) → Io A
on_error m undo = try m >>= λ r. otherwise r undo

-- What is done with a value, if there is one; an error is only logged.
abbrev pub if_ok {ℓ} : {A : Type ℓ} → Result A → (A → Io (Unit {0})) → Io (Unit {0})
if_ok (ok a) next = next a
if_ok (err e) next = pure tt

-- A deferred call: it runs behind `m`, whatever the result.
unfoldable pub finally {ℓ} : {A : Type ℓ} → Io A → Io (Unit {0}) → Io A
finally m deferred w = ((m w).0, (deferred (m w).1).1)
