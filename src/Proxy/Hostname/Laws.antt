-- ===== src/Proxy/Hostname/Laws.antt =====
-- Every public hostname is a DNS label below the public domain, and none is the site's own.
use mini_deploy.Prelude.{
  ℕ, ◌≡◌, ◌≢◌, ◌≤◌, refl, Bool, true, false, [], ◌∷◌, every, every-take, take, length, length-take,
  ltb, arith, Bool-cases, inl, inr,
}
use mini_deploy.Text.{
  Text, eq_iff, trim_space, trim, trim-clean, every-trim, starts_clean, ends_clean, to_lower,
  length-trim,
}
use mini_deploy.Proxy.Hostname.{
  is_dash, is_label_rune, label_runes, shorten, public_hostname_label, in_domain,
  public_hostname_for_app, public_site_hostname,
}

-- A label of a hostname: letters, digits and dashes, at most 63, no dash at an end.
pub record IsLabel (s : Text) : Type 0 where
  pub runes : every is_label_rune s ≡ true
  pub start : starts_clean is_dash s ≡ true
  pub finish : ends_clean is_dash s ≡ true
  pub short : length s ≤ 63

label_runes-runes :
    (started dash : Bool) (s : Text) → every is_label_rune (label_runes started dash s) ≡ true
unfolding label_runes
label_runes-runes started dash [] = refl
label_runes-runes started dash (c ∷ cs) = ground (
  arith,
  label_runes-runes true (is_dash c) cs,
  label_runes-runes true true cs,
  label_runes-runes started dash cs,
)

IsLabel-trim : (s : Text) → every is_label_rune s ≡ true → length s ≤ 63 → IsLabel (trim is_dash s)
IsLabel-trim s h k = record {
  runes = every-trim is_dash is_label_rune s h;
  start = (trim-clean is_dash s).0;
  finish = (trim-clean is_dash s).1;
  short = omega (arith, length-trim is_dash s);
}

IsLabel-shorten : (s : Text) → every is_label_rune s ≡ true → IsLabel (shorten (trim is_dash s))
unfolding shorten
IsLabel-shorten s h =
    let t = trim is_dash s in
    let runes = every-trim is_dash is_label_rune s h in
    elim (Bool-cases (ltb 63 (length t))) [
      | inl long ↦ rw long (
          IsLabel-trim (take 63 t) (every-take is_label_rune 63 t runes)
            (omega (arith, length-take 63 t)))
      | inr fits ↦ rw fits (record {
        runes = runes;
        start = (trim-clean is_dash s).0;
        finish = (trim-clean is_dash s).1;
        short = ground arith;
      })
    ]

-- Whatever the name of an application, its label is empty or a label of a hostname.
pub public_hostname_label-IsLabel :
    (beyond : ℕ → ℕ) (app : Text) → IsLabel (public_hostname_label beyond app)
unfolding public_hostname_label
public_hostname_label-IsLabel beyond app =
    let runes = label_runes false false (to_lower beyond (trim_space app)) in
    IsLabel-shorten runes (label_runes-runes false false (to_lower beyond (trim_space app)))

-- The hostname of an application is empty, or a label below the public domain that is not the
-- hostname of the site.
pub public_hostname_for_app_lem :
    (beyond : ℕ → ℕ) (app : Text)
    → public_hostname_for_app beyond app ≢ []
    → (public_hostname_for_app beyond app ≢ public_site_hostname)
      × ((label : Text) × (public_hostname_for_app beyond app ≡ in_domain label)
          × (label ≢ [])
          × IsLabel label)
unfolding public_hostname_for_app
public_hostname_for_app_lem beyond app h =
    let label = public_hostname_label beyond app in
    (
      λ e. ground (arith, eq_iff (in_domain label) public_site_hostname),
      (label, ground arith, λ e. ground arith, public_hostname_label-IsLabel beyond app),
    )
