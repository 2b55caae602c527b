-- ===== src/Proxy/Hostname.antt =====
-- app/proxy.go: the public hostname of an application.
pub mod Laws
use mini_deploy.Prelude.{
  ℕ, Bool, true, false, ◌&&◌, ◌||◌, not, List, [], ◌∷◌, ◌++◌, take, length, eqb, leb, ltb,
  if◌then◌else◌,
}
use mini_deploy.Text.{Text, codes, ◌==◌, is_empty, trim_space, trim, to_lower}

abbrev pub public_domain : Text
public_domain = codes "reactorlab.dev"

abbrev pub public_site_hostname : Text
public_site_hostname = codes "minideploy.reactorlab.dev"

abbrev pub is_dash : ℕ → Bool
is_dash c = eqb c b'-'

abbrev pub is_label_rune : ℕ → Bool
is_label_rune c = leb b'a' c && leb c b'z' || leb b'0' c && leb c b'9' || is_dash c

-- The loop over the runes. `started` is label.Len() > 0, `dash` is lastWasDash.
unfoldable pub label_runes : Bool → Bool → Text → Text
label_runes started dash [] = []
label_runes started dash (c ∷ cs) =
    let kept = c ∷ label_runes true (is_dash c) cs in
    let joined = b'-' ∷ label_runes true true cs in
    let skipped = label_runes started dash cs in
    if is_label_rune c then kept else if started && not dash then joined else skipped

-- At most 63 bytes, with no dash at the cut. A label is ASCII, so its bytes are its runes.
unfoldable pub shorten : Text → Text
unfolding trim
shorten result = if ltb 63 (length result) then trim is_dash (take 63 result) else result

unfoldable pub public_hostname_label : (ℕ → ℕ) → Text → Text
unfolding label_runes shorten
public_hostname_label beyond app =
    shorten (trim is_dash (label_runes false false (to_lower beyond (trim_space app))))

abbrev pub in_domain : Text → Text
in_domain label = label ++ b'.' ∷ public_domain

unfoldable pub public_hostname_for_app : (ℕ → ℕ) → Text → Text
unfolding ◌==◌
public_hostname_for_app beyond app =
    let label = public_hostname_label beyond app in
    if is_empty label || in_domain label == public_site_hostname then [] else in_domain label

unfoldable pub is_reserved_public_app : (ℕ → ℕ) → Text → Bool
unfolding ◌==◌
is_reserved_public_app beyond app =
    let label = public_hostname_label beyond app in
    not (is_empty label) && in_domain label == public_site_hostname
