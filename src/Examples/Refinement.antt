-- ===== src/Examples/Refinement.antt =====
-- A sequence of operations of app/store.go, and the search of app/docker.go for a port, at concrete inputs.
use mini_deploy.Prelude.{refl, ◌≡◌, ℤ, true, List, [], ◌∷◌, arith}
use mini_deploy.Text.{codes}
use mini_deploy.Result.{ok}
use mini_deploy.Store.Effects.{view}
use mini_deploy.Store.Refinement.{
  Command, Holds, directory_of, execute_all, execute_all-Holds, perform_all,
}
use mini_deploy.Docker.{find_deploy_port}
use mini_deploy.Docker.Port.{IsIdle, find_deploy_port-Idle}
use mini_deploy.Examples.Values.{blog, next_blog, world}

-- The deletion fails.
abbrev commands : List Command
commands =
    Command.save next_blog ∷ Command.delete (codes "shop") ∷ Command.show (codes "blog") true ∷ []

world-Holds : Holds (directory_of (blog ∷ [])) world
unfolding view
world-Holds = record { records = blog ∷ []; parsed = refl; same = refl }

execute_all-Holds_example :
    Holds (perform_all commands world (directory_of (blog ∷ []))) (execute_all commands world)
execute_all-Holds_example = execute_all-Holds commands (directory_of (blog ∷ [])) world world-Holds

first_port-IsIdle : IsIdle world.host 8081
first_port-IsIdle = record {
  output = λ trace. codes "sha256:0123456789abcdef0123456789abcdef0123456789abcdef0123456789abcdef";
  listens = λ trace. refl;
}

find_deploy_port-Idle_example : (port : ℤ) × ((find_deploy_port world).0 ≡ ok port)
find_deploy_port-Idle_example =
    find_deploy_port-Idle 8081 world (omega arith) (omega arith) first_port-IsIdle
