-- ===== src/RepositoryUrl/Laws.antt =====
-- What an accepted repository URL cannot carry.
use mini_deploy.Prelude.{◌≡◌, ◌≢◌, refl, true, false, none, some, [], ◌∷◌, arith}
use mini_deploy.Text.{Text, is_empty, trim_space, equal_fold}
use mini_deploy.Result.{ok}
use mini_deploy.RepositoryUrl.{
  Url, UrlParser, is_http, has_password, validate_parsed, validate_repository_url,
}

-- A URL that parsed has no secret: no password at all, and over HTTP no user, query or fragment.
pub record IsClean (u : Url) : Type 0 where
  pub no_password : has_password u.user ≡ false
  pub no_user : is_http u.scheme ≡ true → u.user ≡ none
  pub no_query : is_http u.scheme ≡ true → u.raw_query ≡ []
  pub no_fragment : is_http u.scheme ≡ true → u.fragment ≡ []
  pub hosted : is_http u.scheme ≡ true → u.host ≢ []

empty_nil : (s : Text) → is_empty s ≡ true → s ≡ []
empty_nil [] h = refl
empty_nil (c ∷ cs) h = cc

validate_parsed-IsClean : (s : Text) (u : Url) → validate_parsed s u ≡ ok tt → IsClean u
unfolding validate_parsed equal_fold
validate_parsed-IsClean s u h = record {
  no_password = ground arith;
  no_user = λ p. ground arith;
  no_query = λ p. ground (arith, empty_nil u.raw_query);
  no_fragment = λ p. ground (arith, empty_nil u.fragment);
  hosted = λ p e. ground arith;
}

-- Whatever the parser, an accepted URL that parses is clean.
pub validate_repository_url-IsClean :
    (parse : UrlParser) (s : Text) (u : Url)
    → validate_repository_url parse s ≡ ok tt
    → parse (trim_space s) ≡ some u
    → IsClean u
unfolding validate_repository_url
validate_repository_url-IsClean parse s u h e = validate_parsed-IsClean (trim_space s) u (rw e at h)

-- Whatever the parser makes of it, an accepted URL of scheme http or https has a host and neither user,
-- password, query nor fragment.
pub validate_repository_url_lem :
    (parse : UrlParser) (s : Text) (u : Url)
    → validate_repository_url parse s ≡ ok tt
    → parse (trim_space s) ≡ some u
    → is_http u.scheme ≡ true
    → (u.host ≢ []) × (u.user ≡ none) × (u.raw_query ≡ []) × (u.fragment ≡ [])
validate_repository_url_lem parse s u h k e =
    let clean = validate_repository_url-IsClean parse s u h k in
    (clean.hosted e, clean.no_user e, clean.no_query e, clean.no_fragment e)
