-- ===== src/Detect/Plan.antt =====
-- Build plans, and the Dockerfiles that app/deployment_strategy.go generates.
use mini_deploy.Prelude.{ℤ, pos, Bool, false, List, [], ◌∷◌, ◌++◌, if◌then◌else◌}
use mini_deploy.Text.{Text, codes, ◌==◌, itoa}
use mini_deploy.Path.{FilePath}
use mini_deploy.Strategy

-- deploymentConfig
pub record DeploymentConfig : Type 0 where
  pub container_port : ℤ
  pub health_path : Text

-- deploymentBuildPlan without Services: a plan that has services is a ProjectPlan.
pub record BuildPlan : Type 0 where
  pub strategy : Text
  pub package_manager : Text
  pub package_install_mode : Text
  pub container_port : ℤ
  pub health_path : Text
  pub generated_dockerfile : Text
  pub reactor_lab_migration : Bool

-- deploymentServiceBuildPlan
pub record ServicePlan : Type 0 where
  pub name : Text
  pub path : Text
  pub repository_path : FilePath
  pub build : BuildPlan

-- deploymentBuildPlan. The plans of the services have no services of their own.
pub record ProjectPlan : Type 0 where
  pub build : BuildPlan
  pub services : List ServicePlan

abbrev pub single : BuildPlan → ProjectPlan
single plan = record { build = plan; services = [] }

-- deploymentBuildPlan{}
abbrev pub no_plan : BuildPlan
no_plan = record {
  strategy = [];
  package_manager = [];
  package_install_mode = [];
  container_port = pos 0;
  health_path = [];
  generated_dockerfile = [];
  reactor_lab_migration = false;
}

abbrev pub install_ci : Text
install_ci = codes "ci"

abbrev pub install_setup : Text
install_setup = codes "install"

-- Each line, with its line break.
abbrev pub in_lines : List Text → Text
in_lines [] = []
in_lines (line ∷ lines) = line ++ 10 ∷ in_lines lines

abbrev install_command : Text → Text
unfolding ◌==◌
install_command install_mode =
    if install_mode == install_ci
    then codes "npm ci --no-audit --no-fund"
    else codes "npm install --no-audit --no-fund"

abbrev build_command : Bool → Text
build_command append_build_subcommand =
    if append_build_subcommand
    then codes "npm run build -- build --base=/ --outDir=dist"
    else codes "npm run build -- --base=/ --outDir=dist"

unfoldable pub generated_vite_dockerfile : Text → Bool → Text
unfolding install_command
generated_vite_dockerfile install_mode append_build_subcommand = in_lines (
    codes "# syntax=docker/dockerfile:1"
    ∷ codes "FROM node:24-alpine AS build"
    ∷ []
    ∷ codes "WORKDIR /app"
    ∷ codes "COPY package*.json ./"
    ∷ (codes "RUN " ++ install_command install_mode)
    ∷ codes "COPY . ."
    ∷ (codes "RUN " ++ build_command append_build_subcommand)
    ∷ []
    ∷ codes "FROM nginx:stable-alpine AS runtime"
    ∷ codes "COPY --from=build /app/dist/ /usr/share/nginx/html/"
    ∷ codes "RUN printf '%s\\n' \\"
    ∷ codes "    'server {' \\"
    ∷ codes "    '    listen 80;' \\"
    ∷ codes "    '    server_name _;' \\"
    ∷ codes "    '    root /usr/share/nginx/html;' \\"
    ∷ codes "    '    index index.html;' \\"
    ∷ codes "    '    location / {' \\"
    ∷ codes "    '        try_files $uri $uri/ /index.html;' \\"
    ∷ codes "    '    }' \\"
    ∷ codes "    '}' > /etc/nginx/conf.d/default.conf"
    ∷ []
    ∷ codes "EXPOSE 80"
    ∷ [])

unfoldable pub generated_node_express_dockerfile : Text → ℤ → Text
unfolding install_command itoa
generated_node_express_dockerfile install_mode container_port = in_lines (
    codes "# syntax=docker/dockerfile:1"
    ∷ codes "FROM node:24-alpine"
    ∷ []
    ∷ codes "WORKDIR /app"
    ∷ codes "COPY package*.json ./"
    ∷ codes "COPY . ."
    ∷ (codes "RUN " ++ install_command install_mode)
    ∷ []
    ∷ (codes "EXPOSE " ++ itoa container_port)
    ∷ codes "CMD [\"npm\", \"start\"]"
    ∷ [])

unfoldable pub vite_static_build_plan : Text → Bool → BuildPlan
vite_static_build_plan install_mode append_build_subcommand = record {
  strategy = Strategy.vite_static;
  package_manager = Strategy.npm;
  package_install_mode = install_mode;
  container_port = pos 80;
  health_path = codes "/";
  generated_dockerfile = generated_vite_dockerfile install_mode append_build_subcommand;
  reactor_lab_migration = false;
}

unfoldable pub node_express_build_plan : Text → ℤ → Text → BuildPlan
node_express_build_plan install_mode container_port health_path = record {
  strategy = Strategy.node_express;
  package_manager = Strategy.npm;
  package_install_mode = install_mode;
  container_port = container_port;
  health_path = health_path;
  generated_dockerfile = generated_node_express_dockerfile install_mode container_port;
  reactor_lab_migration = false;
}
