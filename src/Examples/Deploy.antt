-- ===== src/Examples/Deploy.antt =====
-- A first deployment of app/deploy.go that succeeds, at a concrete input.
use mini_deploy.Prelude.{refl, ◌≡◌, some, pos, []}
use mini_deploy.Text.{codes}
use mini_deploy.Records.{DeploymentRecord, zero_record}
use mini_deploy.Result.{ok}
use mini_deploy.Strategy
use mini_deploy.Detect.Plan.{DeploymentConfig}
use mini_deploy.Lifecycle.Deploy.{deploy_repository}
use mini_deploy.Lifecycle.Live.{Stored}
use mini_deploy.Examples.Running.{deploying}
use mini_deploy.Fullstack.Platform.{platform}
use mini_deploy.Fullstack.Platform.Laws.{deploy_repository-platform-Stored}
use mini_deploy.Examples.Success.{well}

abbrev requested : DeploymentConfig
requested = record { container_port = pos 80; health_path = codes "/" }

abbrev deployed_blog : DeploymentRecord
deployed_blog = record zero_record {
  app = codes "blog";
  repo_url = codes "https://github.com/a/blog";
  container = codes "minideploy-blog";
  image = codes "minideploy-blog:7";
  image_id = codes "sha256:0123456789abcdef0123456789abcdef0123456789abcdef0123456789abcdef";
  port = pos 8081;
  container_port = pos 80;
  health_path = codes "/";
  strategy = Strategy.dockerfile;
  source = some (record {
    provider = codes "github";
    repository = codes "a/blog";
    branch = codes "main";
    requested_ref = [];
    commit_sha = codes "0123456789abcdef0123456789abcdef01234567";
  });
  activated_at = some 7;
}

deploy_succeeds :
    (deploy_repository platform (codes "https://github.com/a/blog") requested [] [] well).0
    ≡ ok deployed_blog
unfolding deploying
deploy_succeeds = refl

deploy_repository-platform-Stored_example :
    Stored well deployed_blog
      (deploy_repository platform (codes "https://github.com/a/blog") requested [] [] well).1
deploy_repository-platform-Stored_example =
    deploy_repository-platform-Stored (codes "https://github.com/a/blog") requested [] [] well
      deployed_blog deploy_succeeds
