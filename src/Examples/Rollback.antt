-- ===== src/Examples/Rollback.antt =====
-- A rollback of a full-stack project of app/fullstack_lifecycle.go whose containers do not start, at a concrete
-- input.
use mini_deploy.Prelude.{refl, ◌≡◌, [], ◌∷◌, inl, inr, keep_if}
use mini_deploy.Text.{codes, ◌==◌, trim_space}
use mini_deploy.Text
use mini_deploy.Names.{normalize_runtime_environment_names}
use mini_deploy.Result.{err, start_container}
use mini_deploy.Config.{normalize_deployment_record}
use mini_deploy.World.{World, HistoryFile}
use mini_deploy.Lifecycle.Keeps.{touches}
use mini_deploy.Lifecycle.Keeps.Database.{IsQuiet}
use mini_deploy.Lifecycle.Rollback.{rollback_deployment}
use mini_deploy.Lifecycle.Rollback.Failure.{IsFresh}
use mini_deploy.Fullstack.Apart.Names.{IsFreshRelease}
use mini_deploy.Fullstack.Platform.{platform}
use mini_deploy.Fullstack.Safety.{rollback_deployment-platform-Spares}
use mini_deploy.Examples.Fullstack.{shop, old_shop}
use mini_deploy.Examples.Running.{running_fullstack}
use mini_deploy.Examples.Values.{world}

-- The history holds one version of the project.
abbrev with_version : World
with_version = record world {
  history_file = HistoryFile.contents ((codes "shop", old_shop ∷ []) ∷ []);
}

normal-IsQuiet : IsQuiet (normalize_deployment_record shop) with_version.host
unfolding normalize_deployment_record ◌==◌ trim_space normalize_runtime_environment_names
    Text.decimal
normal-IsQuiet = record { migration = λ trace. refl }

normal-IsFresh : IsFresh (normalize_deployment_record shop) with_version.host
unfolding normalize_deployment_record ◌==◌ trim_space normalize_runtime_environment_names
    Text.decimal
normal-IsFresh = record { container = λ trace. refl }

rollback-IsFreshRelease :
    IsFreshRelease (normalize_deployment_record shop) (codes "rollback") with_version.host
unfolding normalize_deployment_record ◌==◌ trim_space normalize_runtime_environment_names
    Text.decimal
rollback-IsFreshRelease = record {
  at = λ trace. record {
    network = refl;
    container = λ service h. elim h [ inl e ↦ rw e refl | inr e ↦ rw e refl ];
    image = λ service h. elim h [ inl e ↦ rw e refl | inr e ↦ rw e refl ];
  };
}

rollback_no_start : (rollback_deployment platform shop with_version).0 ≡ err start_container
unfolding running_fullstack
rollback_no_start = refl

rollback_deployment-platform-Spares_example :
    keep_if
      (touches (normalize_deployment_record shop))
      (rollback_deployment platform shop with_version).1.trace
    ≡ keep_if (touches (normalize_deployment_record shop)) []
rollback_deployment-platform-Spares_example =
    rollback_deployment-platform-Spares shop with_version start_container normal-IsQuiet
      normal-IsFresh rollback-IsFreshRelease rollback_no_start
