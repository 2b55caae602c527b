-- ===== src/Examples/Records.antt =====
-- The redeployment and the store of app/deploy.go, app/store.go and app/history.go at concrete inputs.
use mathlib.Core.Option
use mini_deploy.Prelude.{
  refl, ◌≡◌, false, not, Option, some, [], ◌∷◌, keep_if, take, if◌then◌else◌, arith,
}
use mini_deploy.Text.{codes, ◌==◌, trim_space}
use mini_deploy.Result.{err, start_container}
use mini_deploy.Config.{normalize_deployment_record}
use mini_deploy.World.Spec.{Runs}
use mini_deploy.Names.{normalize_runtime_environment_names}
use mini_deploy.Store
use mini_deploy.Store.{put_deployment, find_deployment, stored}
use mini_deploy.Store.Laws.{find-put_deployment, put_deployment_undo, kept_visibility}
use mini_deploy.Records.{DeploymentRecord}
use mini_deploy.Store.Effects
use mini_deploy.Store.Effects.{Leaving, view, delete-Leaves}
use mini_deploy.Store.Contract.{Changes, saved_as, save-Changes, update_guest_visibility-Changes}
use mini_deploy.History
use mini_deploy.History.{pushed, max_previous, deployment_version, version_record, lookup_versions}
use mini_deploy.History.Laws.{
  HasDistinctImages, image_count, released, pushed-HasDistinctImages,
  version_record-deployment_version,
}
use mini_deploy.History.Effects.{Leaves, Replaced, push-Replaced, set-Replaced, with_version}
use mini_deploy.Lifecycle.Keeps.{touches}
use mini_deploy.Lifecycle.Keeps.Database.{IsQuiet}
use mini_deploy.Proxy.{sync_proxy_routes}
use mini_deploy.Proxy.Effects.{Serves, Unserved, sync_proxy_routes-Serves}
use mini_deploy.Text
use mini_deploy.Lifecycle.Redeploy.Safety.{IsFresh}
use mini_deploy.Fullstack.Apart.Names.{IsFreshRelease}
use mini_deploy.Fullstack.Safety.{safe_redeploy-platform-Spares}
use mini_deploy.Lifecycle.Redeploy.{safe_redeploy}
use mini_deploy.Examples.Running.{redeploying}
use mini_deploy.Examples.Values.{blog, next_blog, world, version}
use mini_deploy.Fullstack.Platform.{platform}

blog-IsQuiet : IsQuiet blog world.host
unfolding ◌==◌ Text.decimal
blog-IsQuiet = record { migration = λ trace. refl }

save-Changes_example :
    Runs
      (λ _ w'.
        (was : Option DeploymentRecord) × Changes
          (codes "blog")
          was
          (some (saved_as next_blog was))
          world
          w')
      (Store.Effects.Leaves world (view world.store_file))
      (Store.save next_blog)
      world
save-Changes_example = save-Changes next_blog world

update_guest_visibility-Changes_example :
    Runs
      (λ d w'.
        (was : DeploymentRecord) × (d ≡ record was { guest_visible = false })
        × Changes (codes "blog") (some was) (some d) world w')
      (Store.Effects.Leaves world (view world.store_file))
      (Store.update_guest_visibility (codes "blog") false)
      world
update_guest_visibility-Changes_example = update_guest_visibility-Changes (codes "blog") false world

delete-Leaves_example :
    Leaving world
      (Store.delete (codes "blog") world).0
      (Store.delete (codes "blog") world).1
      (λ _. Option.map (keep_if (λ d. not (d.app == codes "blog"))) (view world.store_file))
delete-Leaves_example = delete-Leaves (codes "blog") world

push-Replaced_example :
    Runs
      (Replaced world (codes "blog") λ h. with_version 7 blog (lookup_versions (codes "blog") h))
      (Leaves world (History.Effects.view world.history_file))
      (History.push blog)
      world
push-Replaced_example = push-Replaced blog world

set-Replaced_example :
    Runs
      (Replaced world (codes "blog") (λ _. version ∷ []))
      (Leaves world (History.Effects.view world.history_file))
      (History.set (codes "blog") (version ∷ []))
      world
set-Replaced_example = set-Replaced (codes "blog") (version ∷ []) world

find-put_deployment_example :
    find_deployment (codes "blog") (put_deployment next_blog (blog ∷ [])) ≡ (
      if next_blog.app == codes "blog"
      then some (record next_blog {
        guest_visible = kept_visibility next_blog (find_deployment next_blog.app (blog ∷ []));
      })
      else find_deployment (codes "blog") (blog ∷ []))
find-put_deployment_example = find-put_deployment next_blog (codes "blog") (blog ∷ [])

found_blog : find_deployment blog.app (blog ∷ []) ≡ some blog
unfolding find_deployment ◌==◌
found_blog = refl

put_deployment_undo_example : put_deployment blog (put_deployment next_blog (blog ∷ [])) ≡ blog ∷ []
put_deployment_undo_example = put_deployment_undo blog next_blog (blog ∷ []) refl found_blog

normal_blog : normalize_deployment_record blog ≡ blog
unfolding normalize_deployment_record ◌==◌ trim_space normalize_runtime_environment_names
normal_blog = refl

one_version : HasDistinctImages []
unfolding image_count
one_version image = ground arith

pushed-HasDistinctImages_example : HasDistinctImages (take max_previous (pushed 7 blog []))
pushed-HasDistinctImages_example = pushed-HasDistinctImages 7 blog [] normal_blog one_version

version_record-deployment_version_example :
    version_record (deployment_version 7 blog) ≡ released (normalize_deployment_record blog)
version_record-deployment_version_example = version_record-deployment_version 7 blog

normal-IsQuiet : IsQuiet (normalize_deployment_record blog) world.host
normal-IsQuiet = rw normal_blog blog-IsQuiet

normal-IsFresh : IsFresh (normalize_deployment_record blog) world.host
unfolding normalize_deployment_record ◌==◌ trim_space normalize_runtime_environment_names
    Text.decimal
normal-IsFresh = record { container = λ trace. refl; image = λ trace. refl }

-- The names of a candidate of the application, were it a full-stack project.
candidate-IsFreshRelease :
    IsFreshRelease (normalize_deployment_record blog) (codes "candidate") world.host
unfolding normalize_deployment_record ◌==◌ trim_space normalize_runtime_environment_names
    Text.decimal
candidate-IsFreshRelease = record {
  at = λ trace. record { network = refl; container = λ service h. refl; image = λ service h. refl };
}

redeploy_no_start : (safe_redeploy platform blog (some []) world).0 ≡ err start_container
unfolding redeploying
redeploy_no_start = refl

safe_redeploy-platform-Spares_example :
    keep_if
      (touches (normalize_deployment_record blog))
      (safe_redeploy platform blog (some []) world).1.trace
    ≡ keep_if (touches (normalize_deployment_record blog)) []
safe_redeploy-platform-Spares_example =
    safe_redeploy-platform-Spares blog (some []) world start_container normal-IsQuiet normal-IsFresh
      candidate-IsFreshRelease redeploy_no_start

sync_proxy_routes-Serves_example : Runs (λ _. Serves world) (Unserved world) sync_proxy_routes world
sync_proxy_routes-Serves_example = sync_proxy_routes-Serves world
