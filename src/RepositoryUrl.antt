-- ===== src/RepositoryUrl.antt =====
-- app/repository_url.go, over a parser of URLs: net/url's Parse is an argument.
pub mod Laws
use mini_deploy.Prelude.{
  Bool, true, false, ◌&&◌, ◌||◌, not, Option, none, some, List, [], ◌∷◌, if◌then◌else◌,
}
use mini_deploy.Text.{Text, codes, ◌==◌, is_empty, trim_space, contains_any, equal_fold, cut}
use mini_deploy.Result.{
  Result, ok, err, invalid_http_repository_url, repository_url_has_credentials,
  repository_url_has_query,
}

-- The fields of url.URL that the program reads. `user` is nil, or a name with the password if one is
-- set.
pub record Url : Type 0 where
  pub scheme : Text
  pub opaque : Text
  pub user : Option (Text × Option Text)
  pub host : Text
  pub path : Text
  pub raw_query : Text
  pub force_query : Bool
  pub fragment : Text
  pub raw_path : Text
  -- its methods Hostname and Port
  pub hostname : Text
  pub port : Text

-- url.Parse; `none` is an error
abbrev pub UrlParser : Type 0
UrlParser = Text → Option Url

abbrev pub is_http : Text → Bool
is_http scheme = equal_fold scheme (codes "http") || equal_fold scheme (codes "https")

abbrev has_scheme : Text × Option Text → Bool
has_scheme (scheme, none) = false
has_scheme (scheme, some _) = is_http scheme

unfoldable pub has_http_repository_scheme : Text → Bool
unfolding cut equal_fold
has_http_repository_scheme repository_url = has_scheme (cut b':' repository_url)

abbrev pub has_password : Option (Text × Option Text) → Bool
has_password none = false
has_password (some (name, none)) = false
has_password (some (name, some password)) = true

abbrev pub has_user : Option (Text × Option Text) → Bool
has_user none = false
has_user (some _) = true

-- The checks on a URL that parsed.
unfoldable pub validate_parsed : Text → Url → Result (Unit {0})
unfolding equal_fold contains_any
validate_parsed candidate u =
    if has_password u.user
    then err repository_url_has_credentials
    else if not (is_http u.scheme)
    then ok tt
    else if is_empty u.host || not (is_empty u.opaque)
    then err invalid_http_repository_url
    else if has_user u.user
    then err repository_url_has_credentials
    else if not (is_empty u.raw_query)
        || u.force_query
        || not (is_empty u.fragment)
        || contains_any candidate (codes "#")
    then err repository_url_has_query
    else ok tt

validate_candidate : Text → Option Url → Result (Unit {0})
unfolding validate_parsed has_http_repository_scheme
validate_candidate candidate none =
    if has_http_repository_scheme candidate then err invalid_http_repository_url else ok tt
validate_candidate candidate (some u) = validate_parsed candidate u

unfoldable pub validate_repository_url : UrlParser → Text → Result (Unit {0})
unfolding validate_candidate trim_space
validate_repository_url parse repository_url =
    let candidate = trim_space repository_url in validate_candidate candidate (parse candidate)
