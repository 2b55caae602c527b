-- ===== src/Examples/Values.antt =====
-- An application, a host, a world and a platform, as inputs of the examples.
use mini_deploy.Prelude.{pos, true, false, Option, none, some, [], ◌∷◌}
use mini_deploy.Text.{Text, codes}
use mini_deploy.Records.{DeploymentRecord, zero_record, DeploymentVersion}
use mini_deploy.Result.{err, read_manifest, package_lock}
use mini_deploy.Strategy
use mini_deploy.Checkout.{Disk, found, regular}
use mini_deploy.RepositoryUrl.{Url}
use mini_deploy.World.{
  World, Host, Event, Event.docker_run, Event.git_head, Event.git_branch, entries, HistoryFile,
}
use mini_deploy.Store.{stored}
use mini_deploy.History.{deployment_version}

abbrev pub blog : DeploymentRecord
blog = record zero_record {
  app = codes "blog";
  repo_url = codes "https://github.com/a/blog";
  container = codes "blog-1";
  image = codes "minideploy-blog:1";
  port = pos 8081;
  container_port = pos 80;
  health_path = codes "/";
  strategy = Strategy.dockerfile;
  guest_visible = true;
}

abbrev pub next_blog : DeploymentRecord
next_blog = record blog {
  container = codes "blog-2";
  image = codes "minideploy-blog:2";
  guest_visible = false;
}

abbrev pub github : Url
github = record {
  scheme = codes "https";
  opaque = [];
  user = none;
  host = codes "github.com";
  path = codes "/a/blog";
  raw_query = [];
  force_query = false;
  fragment = [];
  raw_path = [];
  hostname = codes "github.com";
  port = [];
}

-- Commands answer with the identity of a commit or an image, except that no container starts.
abbrev pub answer_of : Event → Option Text
answer_of (docker_run container image host_port container_port options) = none
answer_of (git_head path) = some (codes "0123456789abcdef0123456789abcdef01234567")
answer_of (git_branch path) = some (codes "main")
answer_of e = some (codes "sha256:0123456789abcdef0123456789abcdef0123456789abcdef0123456789abcdef")

-- A disk on which every path is a regular file, and no symbolic link.
abbrev pub disk : Disk
disk = record {
  lstat = λ path. found tt;
  stat = λ path. found regular;
  eval_symlinks = λ path. found path;
  read_manifest = λ path. err read_manifest;
  read_lock_version = λ path. err package_lock;
}

abbrev pub host : Host
host = record {
  answer = λ trace e. answer_of e;
  status = λ trace e. some 200;
  now = λ trace. 7;
  complaint = λ trace e. [];
  exit_one = λ trace e. true;
  disk = λ trace. disk;
  parse_url = λ s. some github;
  databases_reply = λ trace e. none;
  database_reply = λ trace e. none;
  attachment_reply = λ trace e. none;
  deletion_reply = λ trace e. none;
  binding_reply = λ trace e. none;
  url_string = λ scheme user password host path raw_query. scheme;
  lower_beyond = λ c. c;
}

abbrev pub world : World
world = record {
  host = host;
  trace = [];
  store_file = entries (stored blog ∷ []);
  history_file = HistoryFile.absent;
  secrets = λ app. none;
  route_files = record { local = []; public_hosts = [] };
  live = record { local = []; public_hosts = [] };
}

abbrev pub version : DeploymentVersion
unfolding deployment_version
version = deployment_version 7 blog
