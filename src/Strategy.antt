-- ===== src/Strategy.antt =====
-- The names of the strategies and services in app/deployment_strategy.go and
-- app/fullstack_strategy.go.
use mini_deploy.Text.{Text, codes}

abbrev pub dockerfile : Text
dockerfile = codes "dockerfile"

abbrev pub fullstack_vite_node : Text
fullstack_vite_node = codes "fullstack-vite-node"

abbrev pub vite_static : Text
vite_static = codes "vite-static"

abbrev pub node_express : Text
node_express = codes "node-express"

abbrev pub frontend_service : Text
frontend_service = codes "frontend"

abbrev pub backend_service : Text
backend_service = codes "backend"

abbrev pub npm : Text
npm = codes "npm"
