-- ===== src/Examples/Success.antt =====
-- A redeployment of app/deploy.go and a rollback of app/rollback.go that succeed, at concrete inputs.
use mini_deploy.Prelude.{refl, ◌≡◌, Option, some, pos, []}
use mini_deploy.Text.{Text, codes}
use mini_deploy.Records.{DeploymentRecord}
use mini_deploy.Result.{ok}
use mini_deploy.World.{World, Event}
use mini_deploy.Lifecycle.Live.{Settled}
use mini_deploy.Lifecycle.Redeploy.{safe_redeploy}
use mini_deploy.Fullstack.Platform.Laws.{safe_redeploy-platform-Settled}
use mini_deploy.Examples.Running.{redeploying, cutting_over}
use mini_deploy.Examples.Values.{blog, host, world}
use mini_deploy.Fullstack.Platform.{platform}

-- Every command succeeds.
abbrev answer_all : Event → Option Text
answer_all (Event.git_branch path) = some (codes "main")
answer_all (Event.git_head path) = some (codes "0123456789abcdef0123456789abcdef01234567")
answer_all (Event.image_id image) =
    some (codes "sha256:0123456789abcdef0123456789abcdef0123456789abcdef0123456789abcdef")
answer_all (Event.container_status container) = some (codes "running")
answer_all e = some (codes "true")

abbrev pub well : World
well = record world { host = record host { answer = λ trace e. answer_all e } }

abbrev redeployed : DeploymentRecord
redeployed = record blog {
  container = codes "minideploy-blog-candidate-7";
  image = codes "minideploy-blog:7";
  image_id = codes "sha256:0123456789abcdef0123456789abcdef0123456789abcdef0123456789abcdef";
  port = pos 8081;
  source = some (record {
    provider = codes "github";
    repository = codes "a/blog";
    branch = codes "main";
    requested_ref = [];
    commit_sha = codes "0123456789abcdef0123456789abcdef01234567";
  });
  activated_at = some 7;
}

redeploy_succeeds : (safe_redeploy platform blog (some []) well).0 ≡ ok redeployed
unfolding redeploying cutting_over
redeploy_succeeds = refl

safe_redeploy-platform-Settled_example :
    Settled well redeployed (safe_redeploy platform blog (some []) well).1
safe_redeploy-platform-Settled_example =
    safe_redeploy-platform-Settled blog (some []) well redeployed redeploy_succeeds
