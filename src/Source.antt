-- ===== src/Source.antt =====
-- app/deployment_identity.go: the commit and branch of a checkout, and the repository on GitHub that its
-- URL names.
use mini_deploy.Prelude.{
  ℕ, Bool, ◌&&◌, ◌||◌, not, Option, none, some, List, [], ◌∷◌, ◌++◌, every, any, length, leb, ltb,
  eqb, if◌then◌else◌,
}
use mini_deploy.Text.{
  Text, codes, ◌==◌, is_empty, trim_space, trim_prefix, trim_suffix, has_prefix, contains_any,
  split, byte_length, to_lower, equal_fold,
}
use mini_deploy.Records.{DeploymentSourceRecord}
use mini_deploy.RepositoryUrl.{Url, UrlParser}
use mini_deploy.Result.{Result, ok, err, inspect_source}
use mini_deploy.Path.{FilePath}
use mini_deploy.Docker.{is_hex}
use mini_deploy.World.{
  Io, Event.git_head, Event.git_branch, run, pure, fail, lift, try, gets, ◌>>=◌, ◌>>◌,
}

-- gitObjectIDPattern, ^(?:[0-9a-fA-F]{40}|[0-9a-fA-F]{64})$
unfoldable pub matches_object_id : Text → Bool
matches_object_id s = (eqb (length s) 40 || eqb (length s) 64) && every is_hex s

-- unicode.IsControl
abbrev pub is_control : ℕ → Bool
is_control c = ltb c 32 || leb 127 c && leb c 159

abbrev pub max_deployment_branch_length : ℕ
max_deployment_branch_length = 1024

unfoldable pub validate_deployment_branch : Text → Result (Unit {0})
unfolding byte_length
validate_deployment_branch branch =
    if is_empty branch
      || ltb max_deployment_branch_length (byte_length branch)
      || any is_control branch
    then err inspect_source
    else ok tt

-- [A-Za-z0-9_.-]
abbrev is_repository_rune : ℕ → Bool
is_repository_rune c =
    leb b'A' c && leb c b'Z'
    || leb b'a' c && leb c b'z'
    || leb b'0' c && leb c b'9'
    || eqb c b'_'
    || eqb c b'.'
    || eqb c b'-'

unfoldable pub valid_github_repository_part : Text → Bool
unfolding byte_length ◌==◌
valid_github_repository_part part =
    leb (byte_length part) 100
    && not (part == codes ".")
    && not (part == codes "..")
    && not (is_empty part)
    && every is_repository_rune part

abbrev username : Option (Text × Option Text) → Text
username none = []
username (some (name, _)) = name

-- The path of a URL on GitHub.
github_path : Option Url → Option Text
unfolding ◌==◌ equal_fold
github_path none = none
github_path (some u) =
    if not (u.scheme == codes "https" || u.scheme == codes "ssh")
      || not (equal_fold u.hostname (codes "github.com"))
      || not (is_empty u.port)
      || not (is_empty u.raw_path)
    then none
    else if u.scheme == codes "ssh" && not (username u.user == codes "git")
    then none
    else some u.path

repository_path : UrlParser → Text → Option Text
unfolding github_path has_prefix trim_prefix contains_any
repository_path parse repository_url =
    if has_prefix repository_url (codes "git@github.com:")
    then (let path = trim_prefix repository_url (codes "git@github.com:") in
        if contains_any path (codes "?#") then none else some path)
    else github_path (parse repository_url)

abbrev unknown_repository : Text × Text
unknown_repository = ([], [])

identity_of_parts : List Text → Text × Text
unfolding valid_github_repository_part
identity_of_parts (owner ∷ name ∷ []) =
    if valid_github_repository_part owner && valid_github_repository_part name
    then (codes "github", owner ++ b'/' ∷ name)
    else unknown_repository
identity_of_parts _ = unknown_repository

identity_of_path : Option Text → Text × Text
unfolding identity_of_parts split trim_prefix trim_suffix
identity_of_path none = unknown_repository
identity_of_path (some path) =
    identity_of_parts (split b'/' (trim_suffix (trim_prefix path (codes "/")) (codes ".git")))

-- The provider and the repository.
unfoldable pub github_repository_identity : UrlParser → Text → Text × Text
unfolding identity_of_path repository_path
github_repository_identity parse repository_url =
    identity_of_path (repository_path parse repository_url)

-- The branch of a checkout; a detached HEAD, which git reports by exit status 1, has none.
unfoldable pub branch_of : Bool → Result Text → Io Text
unfolding validate_deployment_branch trim_suffix
branch_of exit_one (err e) = if exit_one then pure [] else fail inspect_source
branch_of exit_one (ok output) =
    let branch = trim_suffix (trim_suffix output (10 ∷ [])) (13 ∷ []) in
    lift (validate_deployment_branch branch) >> pure branch

unfoldable pub inspect_deployment_source : FilePath → Text → Io DeploymentSourceRecord
unfolding matches_object_id to_lower trim_space
inspect_deployment_source path repository_url = do
  output ← run (git_head path) inspect_source
  let commit = trim_space output
  if not (matches_object_id commit) then fail inspect_source else do
    exit_one ← gets (λ w. w.host.exit_one w.trace (git_branch path))
    answer ← try (run (git_branch path) inspect_source)
    branch ← branch_of exit_one answer
    parse ← gets (λ w. w.host.parse_url)
    let identity = github_repository_identity parse repository_url
    pure (record {
      provider = identity.0;
      repository = identity.1;
      branch = branch;
      requested_ref = [];
      commit_sha = to_lower (λ c. c) commit;
    })
