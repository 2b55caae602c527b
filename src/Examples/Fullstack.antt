-- ===== src/Examples/Fullstack.antt =====
-- A full-stack project of app/fullstack_lifecycle.go, at concrete inputs.
use mini_deploy.Prelude.{refl, ◌≡◌, pos, some, [], ◌∷◌, ◌++◌}
use mini_deploy.Text.{Text, codes}
use mini_deploy.Records.{DeploymentRecord, DeploymentServiceRecord, DeploymentVersion, zero_record}
use mini_deploy.Result.{ok}
use mini_deploy.Strategy
use mini_deploy.History.{version_of}
use mini_deploy.Detect.Project.{zero_service}
use mini_deploy.World.{World, HistoryFile, entries}
use mini_deploy.Store.{stored}
use mini_deploy.Lifecycle.Live.{Settled}
use mini_deploy.Lifecycle.Rollback.{rollback_deployment}
use mini_deploy.Fullstack.Platform.{platform}
use mini_deploy.Fullstack.Platform.Laws.{rollback_deployment-platform-Settled}
use mini_deploy.Examples.Running.{running_fullstack}
use mini_deploy.Examples.Success.{well}

abbrev pub frontend : Text → Text → DeploymentServiceRecord
frontend release image = record zero_service {
  name = codes "frontend";
  path = codes "frontend";
  strategy = Strategy.vite_static;
  container = codes "minideploy-shop-frontend-" ++ release;
  image = codes "minideploy-shop-frontend:" ++ image;
  port = pos 8081;
  container_port = pos 80;
  health_path = codes "/";
}

abbrev pub backend : Text → Text → DeploymentServiceRecord
backend release image = record zero_service {
  name = codes "backend";
  path = codes "backend";
  strategy = Strategy.node_express;
  container = codes "minideploy-shop-backend-" ++ release;
  image = codes "minideploy-shop-backend:" ++ image;
  port = pos 8082;
  container_port = pos 3000;
  health_path = codes "/";
}

abbrev pub shop : DeploymentRecord
shop = record zero_record {
  app = codes "shop";
  repo_url = codes "https://github.com/a/shop";
  strategy = Strategy.fullstack_vite_node;
  network = codes "minideploy-shop-release-1";
  services =
      frontend (codes "release-1") (codes "1") ∷ backend (codes "release-1") (codes "1") ∷ [];
}

abbrev pub old_shop : DeploymentVersion
old_shop = version_of 5 (record shop {
  services =
      frontend (codes "release-0") (codes "0") ∷ backend (codes "release-0") (codes "0") ∷ [];
})

abbrev pub shop_world : World
shop_world = record well {
  store_file = entries (stored shop ∷ []);
  history_file = HistoryFile.contents ((codes "shop", old_shop ∷ []) ∷ []);
}

abbrev rolled_back : DeploymentRecord
rolled_back = record shop {
  container = codes "minideploy-shop-frontend-rollback-7";
  image = codes "minideploy-shop-frontend:0";
  port = pos 8081;
  container_port = pos 80;
  health_path = codes "/";
  network = codes "minideploy-shop-release-7";
  services =
      frontend (codes "rollback-7") (codes "0")
      ∷ record (backend (codes "rollback-7") (codes "0")) { port = pos 8081 }
      ∷ [];
  activated_at = some 7;
}

rollback_succeeds : (rollback_deployment platform shop shop_world).0 ≡ ok rolled_back
unfolding running_fullstack
rollback_succeeds = refl

rollback_deployment-platform-Settled_example :
    Settled shop_world rolled_back (rollback_deployment platform shop shop_world).1
rollback_deployment-platform-Settled_example =
    rollback_deployment-platform-Settled shop shop_world rolled_back rollback_succeeds
