-- ===== src/Store/Contract.antt =====
-- What Save and UpdateGuestVisibility of JSONStore in app/store.go promise: what Get finds behind them.
use mini_deploy.Prelude.{
  ◌≡◌, refl, sym, ◌∙◌, Bool, not, Option, none, some, List, [], ◌∷◌, keep_if, arith,
}
use mini_deploy.Text.{Text, ◌==◌, eq_refl}
use mini_deploy.Records.{DeploymentRecord}
use mini_deploy.Result.{Result, ok, err}
use mini_deploy.World.{World, continue, io, pure, lift, ◌>>=◌, ◌>>◌}
use mini_deploy.World.Spec.{Outcome, Runs}
use mini_deploy.RepositoryUrl.{validate_repository_url}
use mini_deploy.Store.{
  find_deployment, load, or_not_found, put_deployment, save, set_visible, update_guest_visibility,
  write,
}
use mini_deploy.Store.Laws.{find-put_deployment, find-set_visible, kept_visibility}
use mini_deploy.Store.Effects.{Leaves, Leaving, Loaded, Rest, load-Loaded, view, write-Leaves}

-- The deployments of the applications but one.
abbrev pub others : Text → List DeploymentRecord → List DeploymentRecord
others app ds = keep_if (λ d. not (d.app == app)) ds

-- Between the worlds the record of one application changes: the files parse, `was` and `now` are what Get finds,
-- the others are as they were, and beside the deployments only the trace changes.
pub record Changes (app : Text) (was now : Option DeploymentRecord) (w w' : World) : Type 0 where
  pub before : List DeploymentRecord
  pub parsed : view w.store_file ≡ some before
  pub found : find_deployment app before ≡ was
  pub later : List DeploymentRecord
  pub written : view w'.store_file ≡ some later
  pub finds : find_deployment app later ≡ now
  pub same_others : others app later ≡ others app before
  pub rest : Rest w w'

others-put_deployment :
    (d : DeploymentRecord) (xs : List DeploymentRecord)
    → others d.app (put_deployment d xs) ≡ others d.app xs
unfolding put_deployment
others-put_deployment d [] = ground (arith, eq_refl d.app)
others-put_deployment d (x ∷ xs) = ground (arith, eq_refl d.app, others-put_deployment d xs)

others-set_visible :
    (app : Text) (visible : Bool) (xs : List DeploymentRecord)
    → others app (set_visible app visible xs) ≡ others app xs
unfolding set_visible
others-set_visible app visible [] = refl
others-set_visible app visible (x ∷ xs) = ground (arith, others-set_visible app visible xs)

pub put_finds :
    (d : DeploymentRecord) (xs : List DeploymentRecord)
    → find_deployment d.app (put_deployment d xs)
      ≡ some (record d { guest_visible = kept_visibility d (find_deployment d.app xs) })
put_finds d xs = ground (arith, find-put_deployment d d.app xs, eq_refl d.app)

set_finds :
    (app : Text) (visible : Bool) (x : DeploymentRecord) (xs : List DeploymentRecord)
    → find_deployment app xs ≡ some x
    → find_deployment app (set_visible app visible xs) ≡ some (record x { guest_visible = visible })
set_finds app visible x xs h = ground (arith, h, find-set_visible app app visible xs, eq_refl app)

Rest-trans : (u v w : World) → Rest u v → Rest v w → Rest u w
Rest-trans u v w h k = record {
  host = k.host ∙ h.host;
  history_file = k.history_file ∙ h.history_file;
  secrets = k.secrets ∙ h.secrets;
  route_files = k.route_files ∙ h.route_files;
  live = k.live ∙ h.live;
}

-- A write behind a load, where the new list has what the change promises.
written-Changes :
    {A : Type 0} (app : Text) (was now : Option DeploymentRecord) (ds later : List DeploymentRecord)
    (w w1 w2 : World) (a : A) (r : Result (Unit {0}))
    → Loaded w (ok ds) w1
    → find_deployment app ds ≡ was
    → find_deployment app later ≡ now
    → others app later ≡ others app ds
    → Leaving w1 r w2 (λ _. some later)
    → let (r', w') = continue r (λ _. pure a) w2 in
      Outcome (λ b w'. (b ≡ a) × Changes app was now w w') (Leaves w (view w.store_file)) r' w'
unfolding pure
written-Changes app was now ds later w w1 w2 a (ok u) h f g o l = (
  refl,
  record {
    before = ds;
    parsed = h.0;
    found = f;
    later = later;
    written = l.deployments;
    finds = g;
    same_others = o;
    rest = Rest-trans w w1 w2 h.1.rest l.rest;
  },
)
written-Changes app was now ds later w w1 w2 a (err e) h f g o l = record {
  deployments = l.deployments ∙ h.1.deployments ∙ sym h.0;
  rest = Rest-trans w w1 w2 h.1.rest l.rest;
}

-- The record that Get finds behind a Save of `d`.
abbrev pub saved_as : DeploymentRecord → Option DeploymentRecord → DeploymentRecord
saved_as d was = record d { guest_visible = kept_visibility d was }

-- Save either fails and leaves the deployments, or the file parsed before, and the record is now the one of its
-- application, with the visibility of the one that it replaced, if there was one; the deployments of the other
-- applications are as they were, in their order. Beside the deployments only the trace changes.
pub save-Changes :
    (d : DeploymentRecord) (w : World)
    → Runs
        (λ _ w'. (was : Option DeploymentRecord) × Changes d.app was (some (saved_as d was)) w w')
        (Leaves w (view w.store_file))
        (save d)
        w
unfolding save io
save-Changes d w = checked (validate_repository_url w.host.parse_url d.repo_url)
  where
    after :
        (was : Option DeploymentRecord) (r : Result (Unit {0})) (w' : World)
        → (let (r', v) = continue r (λ _. pure tt) w' in
            Outcome
              (λ b v. (b ≡ tt) × Changes d.app was (some (saved_as d was)) w v)
              (Leaves w (view w.store_file))
              r'
              v)
        → Outcome
            (λ _ v. (was : Option DeploymentRecord) × Changes d.app was (some (saved_as d was)) w v)
            (Leaves w (view w.store_file))
            r
            w'
    after was (ok u) w' h = (was, h.1)
    after was (err e) w' h = h

    go :
        (r : Result (List DeploymentRecord)) (w1 : World)
        → Loaded w r w1
        → let (r', w') = continue r (λ ds. write (put_deployment d ds)) w1 in
          Outcome
            (λ _ v. (was : Option DeploymentRecord) × Changes d.app was (some (saved_as d was)) w v)
            (Leaves w (view w.store_file))
            r'
            w'
    go (ok ds) w1 h =
        let next = put_deployment d ds in
        after (find_deployment d.app ds) (write next w1).0 (write next w1).1 (
          written-Changes d.app (find_deployment d.app ds) _ ds next w w1 (write next w1).1 tt
            (write next w1).0 h refl (put_finds d ds) (others-put_deployment d ds)
            (write-Leaves next w1))
    go (err e) w1 h = h

    checked :
        (u : Result (Unit {0}))
        → Runs
            (λ _ v. (was : Option DeploymentRecord) × Changes d.app was (some (saved_as d was)) w v)
            (Leaves w (view w.store_file))
            (lift u >> (load >>= λ ds. write (put_deployment d ds)))
            w
    checked (ok u) = go (load w).0 (load w).1 (load-Loaded w)
    checked (err e) = ground arith

-- UpdateGuestVisibility either fails and leaves the deployments, or the application had a record, which it now has
-- with the given visibility, and that record is returned; the deployments of the other applications are as
-- they were, in their order. Beside the deployments only the trace changes.
pub update_guest_visibility-Changes :
    (app : Text) (visible : Bool) (w : World)
    → Runs
        (λ d w'.
          (was : DeploymentRecord) × (d ≡ record was { guest_visible = visible })
          × Changes app (some was) (some d) w w')
        (Leaves w (view w.store_file))
        (update_guest_visibility app visible)
        w
unfolding update_guest_visibility io
update_guest_visibility-Changes app visible w = go (load w).0 (load w).1 (load-Loaded w)
  where
    Promised : DeploymentRecord → World → Type 0
    Promised d w' =
        (was : DeploymentRecord) × (d ≡ record was { guest_visible = visible })
        × Changes app (some was) (some d) w w'

    after :
        (was : DeploymentRecord) (r : Result DeploymentRecord) (w' : World)
        → Outcome
            (λ b v.
              (b ≡ record was { guest_visible = visible })
              × Changes app (some was) (some (record was { guest_visible = visible })) w v)
            (Leaves w (view w.store_file))
            r
            w'
        → Outcome Promised (Leaves w (view w.store_file)) r w'
    after was (ok d) w' h = (was, h.0, rw h.0 h.1)
    after was (err e) w' h = h

    found :
        (ds : List DeploymentRecord) (o : Option DeploymentRecord) (w1 : World)
        → find_deployment app ds ≡ o
        → Loaded w (ok ds) w1
        → Runs Promised
            (Leaves w (view w.store_file))
            (or_not_found o >>= λ x.
              write (set_visible app visible ds) >> pure (record x { guest_visible = visible }))
            w1
    found ds none w1 e h = ground (arith, h)
    found ds (some x) w1 e h =
        let next = set_visible app visible ds in
        after x _ _ (
          written-Changes app (some x) _ ds next w w1 (write next w1).1
            (record x { guest_visible = visible }) (write next w1).0 h e
            (set_finds app visible x ds e) (others-set_visible app visible ds)
            (write-Leaves next w1))

    go :
        (r : Result (List DeploymentRecord)) (w1 : World)
        → Loaded w r w1
        → let (r', w') =
            continue r
              (λ ds. or_not_found (find_deployment app ds) >>= λ x.
                write (set_visible app visible ds) >> pure (record x { guest_visible = visible }))
              w1 in
          Outcome Promised (Leaves w (view w.store_file)) r' w'
    go (ok ds) w1 h = found ds (find_deployment app ds) w1 refl h
    go (err e) w1 h = h
