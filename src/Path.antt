-- ===== src/Path.antt =====
-- app/deployment_path.go: application names, and the check that keeps every path that the program
-- removes or replaces strictly below its managed root. Roots and candidates are absolute, so
-- filepath.Abs leaves them; a clean path is the list of its components.
pub mod Laws
use mini_deploy.Prelude.{ℕ, Bool, true, false, ◌||◌, not, List, [], ◌∷◌, ◌++◌, map, if◌then◌else◌}
use mathlib.Core.List.{reverse}
use mini_deploy.Text.{
  Text, codes, ◌==◌, is_empty, trim_space, contains_any, split, trim_suffix, to_lower,
}
use mini_deploy.Result.{Result, ok, err, invalid_application_name, not_a_strict_child}

unfoldable pub validate_application_name : Text → Result (Unit {0})
unfolding contains_any ◌==◌
validate_application_name name =
    if is_empty (trim_space name)
      || name == codes "."
      || name == codes ".."
      || contains_any name (codes "/\\")
    then err invalid_application_name
    else ok tt

abbrev pub FilePath : Type 0
FilePath = List Text

abbrev pub is_parent : Text → Bool
is_parent c = c == codes ".."

-- One element of a path, onto the elements before it, the last first: filepath.Clean of a rooted path.
unfoldable pub clean_step : FilePath → Text → FilePath
unfolding ◌==◌
clean_step [] c = if is_empty c || c == codes "." || is_parent c then [] else c ∷ []
clean_step (d ∷ ds) c =
    if is_empty c || c == codes "." then d ∷ ds else if is_parent c then ds else c ∷ d ∷ ds

unfoldable pub clean_steps : FilePath → List Text → FilePath
unfolding clean_step
clean_steps done [] = done
clean_steps done (c ∷ cs) = clean_steps (clean_step done c) cs

-- filepath.Clean
unfoldable pub clean : Text → FilePath
unfolding clean_steps
clean path = reverse (clean_steps [] (split b'/' path))

-- filepath.Join(root, name), for a root that is not empty
unfoldable pub join : Text → Text → Text
join root name = root ++ b'/' ∷ name

-- filepath.Rel of two clean rooted paths; the empty list is ".".
unfoldable pub relative : FilePath → FilePath → FilePath
relative [] target = target
relative (b ∷ bs) [] = map (λ _. codes "..") (b ∷ bs)
relative (b ∷ bs) (t ∷ ts) =
    let deeper = relative bs ts in
    if b == t then deeper else map (λ _. codes "..") (b ∷ bs) ++ t ∷ ts

-- relative is not ".", not ".." and does not begin with "../".
abbrev pub goes_down : FilePath → Bool
goes_down [] = false
goes_down (c ∷ cs) = not (is_parent c)

unfoldable pub strict_child_path : Text → Text → Result FilePath
unfolding clean relative
strict_child_path root candidate =
    if goes_down (relative (clean root) (clean candidate))
    then ok (clean candidate)
    else err not_a_strict_child

abbrev pub deployments_dir : Text
deployments_dir = codes "/srv/minideploy/managed-deployments"

abbrev pub after_name : Result (Unit {0}) → Result FilePath → Result FilePath
after_name (ok _) path = path
after_name (err e) path = err e

unfoldable pub managed_deployment_path : Text → Result FilePath
unfolding validate_application_name strict_child_path join
managed_deployment_path app_name =
    after_name (validate_application_name app_name)
      (strict_child_path deployments_dir (join deployments_dir app_name))

-- filepath.Base of a path that is no run of slashes: the last element, behind trailing slashes.
-- Of a run of slashes it is "/", of the empty text ".".
last_element : Text → List Text → Text
last_element found [] = found
last_element found (c ∷ cs) = last_element (if is_empty c then found else c) cs

unfoldable pub base : Text → Text
unfolding last_element ◌==◌
base path =
    if is_empty path
    then codes "."
    else let name = last_element [] (split b'/' path) in if is_empty name then codes "/" else name

-- app/deploy.go: the application identifier of a repository; the empty text where there is none.
unfoldable pub repo_name : (ℕ → ℕ) → Text → Text
unfolding base trim_suffix to_lower validate_application_name
repo_name beyond repo_url =
    let name =
      to_lower beyond (trim_suffix (base (trim_suffix repo_url (codes "/"))) (codes ".git")) in
    elim (validate_application_name name) [ ok _ ↦ name | err _ ↦ [] ]
